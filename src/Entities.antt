-- ===== src/Entities.antt =====
-- The rows of the database and the enums in them: src/*/types.ts and src/*/entities/*.ts.
-- Identifiers, references, e-mail addresses, tokens and password hashes are only compared, so
-- they are numbers. Dates are milliseconds since the epoch. Sums of money are whole naira, and
-- signed where the code lets them be.
use sojourn_backend.Prelude.{ℕ, ℤ, Bool, true, false, Option, List}

-- src/bookings/types.ts
pub data BookingStatus : Type 0 where
  pending paid_pending processing finished cancelled : BookingStatus

-- src/payments/types.ts
pub data PaymentTypes : Type 0 where
  booking withdrawal refund : PaymentTypes

pub data PaymentStatus : Type 0 where
  pending completed : PaymentStatus

pub data PaymentMethod : Type 0 where
  card transfer crypto : PaymentMethod

pub data WithdrawalStatus : Type 0 where
  pending paid cancelled : WithdrawalStatus

pub data SubscriptionActiveStatus : Type 0 where
  active not_active : SubscriptionActiveStatus

-- src/wallet/types.ts
pub data SojournCreditsStatus : Type 0 where
  pending confirmed : SojournCreditsStatus

pub data SojournCreditsType : Type 0 where
  incoming outgoing : SojournCreditsType

-- src/referals/types.ts
pub data ReferalStatus : Type 0 where
  paid unpaid : ReferalStatus

pub data ReferalTransactionStatus : Type 0 where
  debit credit : ReferalTransactionStatus

pub data ReferalType : Type 0 where
  incoming outgoing : ReferalType

-- src/users/guests/types.ts
pub data UserActiveStatus : Type 0 where
  active restricted : UserActiveStatus

-- src/bookings/entities/booking.entity.ts
pub record Booking : Type 0 where
  pub id : ℕ
  pub property_id : ℕ
  pub guest_id : ℕ
  pub check_in : ℕ
  pub check_out : ℕ
  pub number_of_adults : ℤ
  pub number_of_children : ℤ
  pub number_of_infants : ℤ
  pub status : BookingStatus
  pub holding_window : Option ℕ
  pub crypto_payment_address : Option ℕ
  pub crypto_payment_amount : ℕ

-- src/payments/entities/payment.entity.ts
pub record Payment : Type 0 where
  pub id : ℕ
  pub booking_id : Option ℕ
  pub user_id : Option ℕ
  pub host_id : Option ℕ
  pub wallet_id : Option ℕ
  pub withdrawal_id : Option ℕ
  pub payment_status : PaymentStatus
  pub payment_type : PaymentTypes
  pub payment_method : PaymentMethod
  pub paystack_reference : Option ℕ
  pub amount : ℤ
  pub transaction_fee : ℤ
  pub vat : ℤ
  pub sojourn_credits_amount : Option ℤ
  pub caution_fee : Option ℤ
  pub created_at : ℕ

-- src/payments/entities/withdrawal.entity.ts
pub record Withdrawal : Type 0 where
  pub id : ℕ
  pub account_id : ℕ
  pub payment_id : Option ℕ
  pub status : WithdrawalStatus

-- src/referals/entities/referals.entity.ts
pub record Referal : Type 0 where
  pub id : ℕ
  pub referer_id : ℕ
  pub user_id : Option ℕ
  pub booking_id : Option ℕ
  pub amount : ℤ
  pub payment_status : ReferalTransactionStatus
  pub paystack_status : ReferalStatus
  pub payment_type : ReferalType
  pub reference : Option ℕ

-- src/wallet/entities/sojourn-credits.entity.ts; `type` is a column name there
pub record SojournCredit : Type 0 where
  pub id : ℕ
  pub user_id : ℕ
  pub booking_id : Option ℕ
  pub amount : ℤ
  pub reference : ℕ
  pub status : SojournCreditsStatus
  pub credit_type : SojournCreditsType

-- src/payments/entities/subscription.entity.ts
pub record Subscription : Type 0 where
  pub id : ℕ
  pub host_id : ℕ
  pub plan_id : ℕ
  pub plan_name : ℕ
  pub active_status : SubscriptionActiveStatus
  pub next_payment_date : Option ℕ
  pub initial_payment_reference : ℕ
  pub email_token : Option ℕ
  pub customer_id : Option ℕ
  pub customer_email : ℕ
  pub customer_code : Option ℕ
  pub subscription_code : Option ℕ
  pub authorization_code : Option ℕ

-- src/payments/entities/subscription-payment.entity.ts; the amount is kept in kobo, the
-- hundredth of a naira
pub record SubscriptionPayment : Type 0 where
  pub id : ℕ
  pub subscription_id : ℕ
  pub kobo : ℕ
  pub paystack_reference : Option ℕ
  pub paid_on : ℕ

-- src/wallet/entities
pub record Wallet : Type 0 where
  pub id : ℕ
  pub host_id : ℕ

pub record Account : Type 0 where
  pub id : ℕ
  pub host_id : ℕ
  pub wallet_id : ℕ
  pub bank_name : ℕ
  pub bank_account_number : ℕ

-- src/wallet/entities/user-account.entity.ts
pub record UserAccount : Type 0 where
  pub id : ℕ
  pub user_id : ℕ
  pub bank_name : ℕ
  pub bank_account_number : ℕ

-- src/auth/entities/token.entity.ts
pub record RefreshToken : Type 0 where
  pub id : ℕ
  pub token_id : ℕ
  pub refresh_token : ℕ

-- src/users/entities/users.entity.ts
pub record User : Type 0 where
  pub id : ℕ
  pub email : ℕ
  pub active : UserActiveStatus
  pub is_created_with_google : Bool
  pub is_email_verified : Bool
  pub referer_id : Option ℕ
  pub password : Option ℕ
  -- whether a row of `user_profiles` belongs to the user
  pub has_profile : Bool
  pub host_id : Option ℕ

pub record Host : Type 0 where
  pub id : ℕ
  pub email : ℕ
  pub user_id : Option ℕ
  pub password : Option ℕ
  pub active : UserActiveStatus
  -- whether a row of `host_profiles` belongs to the host
  pub has_profile : Bool

-- src/admin/entities/admin.entity.ts
pub record Admin : Type 0 where
  pub id : ℕ
  pub email : ℕ
  pub password : ℕ

-- src/properties/types.ts
pub data PropertyStatus : Type 0 where
  active deactivated : PropertyStatus

pub data PropertyInspectionStatus : Type 0 where
  pending approved cancelled : PropertyInspectionStatus

-- src/properties/entities/property.entity.ts
pub record Property : Type 0 where
  pub id : ℕ
  pub title : ℕ
  pub host_id : ℕ
  pub active_status : PropertyStatus
  pub views : ℕ
  pub number_of_rooms : ℕ
  pub max_number_of_people : ℕ
  pub type_of_property : ℕ
  pub city : ℕ
  pub ammenities : List ℕ
  pub price : ℕ
  pub caution_fee : ℕ

pub record PropertyInspection : Type 0 where
  pub id : ℕ
  pub title : ℕ
  pub status : PropertyInspectionStatus
  pub inspector_id : Option ℕ
  pub property_id : Option ℕ
  pub host_id : ℕ
  pub inspection_date : ℕ
  pub date_approved : Option ℕ
  pub date_cancelled : Option ℕ

-- src/inspectors/entities/inspectors.entity.ts
pub record Inspector : Type 0 where
  pub id : ℕ
  pub email : ℕ
  pub photo : ℕ

-- src/wishlist/entities/wishlist.entity.ts
pub record Wish : Type 0 where
  pub id : ℕ
  pub user_id : ℕ
  pub property_id : ℕ

-- src/reviews/entities/reviews.entity.ts
pub record Review : Type 0 where
  pub id : ℕ
  pub rating : ℕ
  pub message : ℕ
  pub user_id : ℕ
  pub booking_id : ℕ
  pub property_id : ℕ

-- src/messages/types.ts
pub data MessageStatus : Type 0 where
  unread read : MessageStatus

-- src/messages/entities/messages.entity.ts
pub record Message : Type 0 where
  pub id : ℕ
  pub ticket_id : Option ℕ
  pub user_id : ℕ
  pub host_id : ℕ
  pub sender_id : ℕ
  pub message : ℕ
  pub status : MessageStatus

-- src/messages/entities/ticket.entity.ts
pub record Ticket : Type 0 where
  pub id : ℕ
  pub user_id : ℕ
  pub host_id : ℕ
  pub booking_id : Option ℕ
  pub property_id : Option ℕ
  pub title : ℕ

-- The strict equality tests `===` and `!==` on the enums.
abbrev pub is_cancelled : BookingStatus → Bool
is_cancelled BookingStatus.cancelled = true
is_cancelled _ = false

abbrev pub is_finished : BookingStatus → Bool
is_finished BookingStatus.finished = true
is_finished _ = false

abbrev pub is_pending : BookingStatus → Bool
is_pending BookingStatus.pending = true
is_pending _ = false

abbrev pub is_paid_pending : BookingStatus → Bool
is_paid_pending BookingStatus.paid_pending = true
is_paid_pending _ = false

abbrev pub is_processing : BookingStatus → Bool
is_processing BookingStatus.processing = true
is_processing _ = false

abbrev pub is_completed : PaymentStatus → Bool
is_completed PaymentStatus.completed = true
is_completed PaymentStatus.pending = false

abbrev pub is_booking_type : PaymentTypes → Bool
is_booking_type PaymentTypes.booking = true
is_booking_type _ = false

abbrev pub is_withdrawal_type : PaymentTypes → Bool
is_withdrawal_type PaymentTypes.withdrawal = true
is_withdrawal_type _ = false

abbrev pub is_crypto : PaymentMethod → Bool
is_crypto PaymentMethod.crypto = true
is_crypto _ = false

abbrev pub is_confirmed : SojournCreditsStatus → Bool
is_confirmed SojournCreditsStatus.confirmed = true
is_confirmed SojournCreditsStatus.pending = false

abbrev pub is_paid : ReferalStatus → Bool
is_paid ReferalStatus.paid = true
is_paid ReferalStatus.unpaid = false

abbrev pub is_restricted : UserActiveStatus → Bool
is_restricted UserActiveStatus.restricted = true
is_restricted UserActiveStatus.active = false

abbrev pub is_approved : PropertyInspectionStatus → Bool
is_approved PropertyInspectionStatus.approved = true
is_approved _ = false

abbrev pub is_active : PropertyStatus → Bool
is_active PropertyStatus.active = true
is_active PropertyStatus.deactivated = false

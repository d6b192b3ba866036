-- ===== src/Tests/Samples.antt =====
-- Sample rows, requests and worlds.
use sojourn_backend.Prelude.{ℕ, ◌+◌, ◌*◌, pos, true, false, none, some, Option, [], ◌∷◌}
use sojourn_backend.Entities.{
  Booking, BookingStatus, Payment, PaymentMethod, PaymentStatus, PaymentTypes, Property,
  PropertyStatus, User, UserActiveStatus, Host, SojournCredit, SojournCreditsStatus,
  SojournCreditsType,
}
use sojourn_backend.App.{World}
use sojourn_backend.Checkout.Validation.{CheckoutDto}
use sojourn_backend.Webhook.Message.{PaystackData}

-- The n-th day, and a booking from the 3rd to the 6th.
abbrev pub on : ℕ → ℕ
on n = n * 86400000

abbrev pub booking : ℕ → BookingStatus → Option ℕ → Booking
booking i status window = record {
  id = i;
  property_id = 20;
  guest_id = 40;
  check_in = on 3;
  check_out = on 6;
  number_of_adults = pos 2;
  number_of_children = pos 1;
  number_of_infants = pos 0;
  status = status;
  holding_window = window;
  crypto_payment_address = none;
  crypto_payment_amount = 0;
}

abbrev pub payment : ℕ → ℕ → PaymentStatus → Payment
payment i b status = record {
  id = i;
  booking_id = some b;
  user_id = some 40;
  host_id = some 30;
  wallet_id = none;
  withdrawal_id = none;
  payment_status = status;
  payment_type = PaymentTypes.booking;
  payment_method = PaymentMethod.card;
  paystack_reference = some (100 + i);
  amount = pos 41250;
  transaction_fee = pos 3000;
  vat = pos 2250;
  sojourn_credits_amount = some (pos 0);
  caution_fee = some (pos 6000);
  created_at = 0;
}

abbrev pub villa : Property
villa = record {
  id = 20;
  title = 21;
  host_id = 30;
  active_status = PropertyStatus.active;
  views = 0;
  number_of_rooms = 3;
  max_number_of_people = 6;
  type_of_property = 1;
  city = 7;
  ammenities = 1 ∷ 2 ∷ [];
  price = 10000;
  caution_fee = 6000;
}

abbrev pub guest : User
guest = record {
  id = 40;
  email = 400;
  active = UserActiveStatus.active;
  is_created_with_google = false;
  is_email_verified = true;
  referer_id = some 41;
  password = none;
  has_profile = true;
  host_id = none;
}

abbrev pub friend : User
friend = record guest { id = 41; email = 410; referer_id = none }

abbrev pub owner : Host
owner = record {
  id = 30;
  email = 300;
  user_id = none;
  password = some 7;
  active = UserActiveStatus.active;
  has_profile = true;
}

abbrev pub earned_credit : ℕ → SojournCreditsStatus → SojournCredit
earned_credit i status = record {
  id = i;
  user_id = 40;
  booking_id = some 10;
  amount = pos 800;
  reference = 101;
  status = status;
  credit_type = SojournCreditsType.incoming;
}

-- One booking paid for and one that waits for its money.
abbrev pub sample : World
sample = record {
  bookings =
      booking 10 BookingStatus.paid_pending none
      ∷ booking 11 BookingStatus.pending (some 1800000)
      ∷ [];
  payments = payment 1 10 PaymentStatus.completed ∷ payment 2 11 PaymentStatus.pending ∷ [];
  withdrawals = [];
  referals = [];
  credits =
      earned_credit 1 SojournCreditsStatus.confirmed
      ∷ earned_credit 2 SojournCreditsStatus.pending
      ∷ [];
  subscriptions = [];
  subscription_payments = [];
  wallets = [];
  accounts = [];
  user_accounts = [];
  tokens = [];
  users = guest ∷ friend ∷ [];
  hosts = owner ∷ [];
  admins = [];
  properties = villa ∷ [];
  tickets = [];
  messages = [];
  inspections = [];
  inspectors = [];
  wishes = [];
  reviews = [];
  rate = none;
  codes = [];
  events = [];
}

abbrev pub request : CheckoutDto
request = record {
  credits = some (pos 500);
  property_id = 20;
  user_id = 40;
  check_in_date = on 10;
  check_out_date = on 12;
  number_of_adults = pos 1;
  number_of_children = pos 0;
  number_of_infants = pos 0;
}

abbrev pub charge : PaystackData
charge = record {
  status_success = true;
  paid = true;
  reference = some 101;
  amount = 4125000;
  paid_at = 5;
  subscription_code = 1;
  subscription = none;
  next_payment_date = 0;
  customer_id = 1;
  customer_email = 400;
  customer_code = 1;
  authorization_code = 1;
}

-- ===== src/Tests/Payments.antt =====
-- Credits, the webhook and the verification of payments on the sample rows.
use sojourn_backend.Prelude.{
  ◌≡◌, ◌≢◌, ◌↔◌, refl, pos, negsuc, ◌≤ℤ◌, true, false, some, [], ◌∷◌, All,
}
use sojourn_backend.Entities.{Payment, PaymentStatus}
use sojourn_backend.App.{World, ok, Exception}
use sojourn_backend.Wallet.Credits.{
  TransferDto, get_total_sojourn_credits_by_user_id, transfer_sojourn_credits,
  transfer_accepted_iff,
}
use sojourn_backend.Webhook.Message.{WebhookDto, charge_success}
use sojourn_backend.Webhook.Confirm.{
  settle_payment, save_payment, save_referal, save_credits, emit_confirmation, payment_status_of,
  credit_status_of, get_referal_by_user_reference, booking_of, user_of, host_of,
}
use sojourn_backend.Webhook.Dispatch.{handle_paystack_webhook}
use sojourn_backend.Webhook.Signed.{webhook_needs_signature}
use sojourn_backend.Webhook.Settled.{settle_payment_effect, settle_fails_unchanged}
use sojourn_backend.Tests.Database.{list_orm}
use sojourn_backend.Tests.Samples.{payment, guest, friend, sample, charge}

-- A transfer of a negative amount, which goes through.
abbrev backwards : TransferDto
backwards = record { user_id = 40; to = 410; amount = negsuc 99 }

transfer_accepted_iff_example :
    let total = get_total_sojourn_credits_by_user_id list_orm 40 sample in
    ((transfer_sojourn_credits list_orm backwards sample).0 ≡ ok tt)
    ↔ ((pos 1 ≤ℤ total) × (negsuc 99 ≤ℤ total))
unfolding list_orm
transfer_accepted_iff_example =
    transfer_accepted_iff list_orm backwards sample friend guest refl refl

abbrev body : WebhookDto
body = record { event = charge_success; payload = some charge }

webhook_needs_signature_example :
    ((handle_paystack_webhook list_orm (λ dto. 1 ∷ []) body (2 ∷ []) sample).1 ≡ sample)
    × ((handle_paystack_webhook list_orm (λ dto. 1 ∷ []) body (2 ∷ []) sample).0 ≢ ok true)
webhook_needs_signature_example =
    webhook_needs_signature list_orm (λ dto. 1 ∷ []) body (2 ∷ []) sample (λ e. absurd cc)

abbrev first_payment : Payment
first_payment = payment 1 10 PaymentStatus.completed

-- The same payment, whose guest has no profile.
abbrev no_profile : World
no_profile = record sample { users = record guest { has_profile = false } ∷ [] }

settle_payment_effect_example :
    let w' = (settle_payment list_orm true first_payment 101 sample).1 in
    (true ≡ true)
    × (w'.payments
        ≡ list_orm.save Payment
            (λ x. x.id)
            (record first_payment { payment_status = payment_status_of true })
            sample.payments)
    × All (λ c. c.reference ≡ 101 → c.status ≡ credit_status_of true) w'.credits
unfolding list_orm settle_payment emit_confirmation booking_of user_of host_of save_referal
    get_referal_by_user_reference save_payment save_credits
settle_payment_effect_example =
    settle_payment_effect list_orm true true first_payment 101 sample
      (settle_payment list_orm true first_payment 101 sample).1 refl

settle_fails_unchanged_example :
    (settle_payment list_orm true first_payment 101 no_profile).1 ≡ no_profile
unfolding list_orm settle_payment emit_confirmation booking_of user_of
settle_fails_unchanged_example =
    settle_fails_unchanged list_orm true first_payment 101 no_profile Exception.type_error refl

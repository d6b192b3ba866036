-- ===== src/Webhook/Signed.antt =====
-- What the webhook does without a valid signature, and the flags that it answers with.
use sojourn_backend.Prelude.{
  ℕ, ◌≡◌, ◌≢◌, refl, true, some, List, [], ◌∷◌, Bool-cases, inl, inr, arith,
}
use sojourn_backend.Orm.{Orm}
use sojourn_backend.App.{Result-cases, World, ok}
use sojourn_backend.Webhook.Message.{PaystackData, WebhookDto, invoice_create, invoice_update}
use sojourn_backend.Webhook.Subscriptions.{invoice_updated, subscription_invoice_created}
use sojourn_backend.Webhook.Dispatch.{same_bytes, dispatch, handle_paystack_webhook}

same_bytes_sound : (xs ys : List ℕ) → same_bytes xs ys ≡ true → xs ≡ ys
unfolding same_bytes
same_bytes_sound [] [] h = refl
same_bytes_sound [] (y ∷ ys) h = cc
same_bytes_sound (x ∷ xs) [] h = cc
same_bytes_sound (x ∷ xs) (y ∷ ys) h = ground (arith, same_bytes_sound xs ys)

same_bytes_refl : (xs : List ℕ) → same_bytes xs xs ≡ true
unfolding same_bytes
same_bytes_refl [] = refl
same_bytes_refl (x ∷ xs) = ground (arith, same_bytes_refl xs)

module _ (orm : Orm) where
  -- A request that is signed with the digest of its body is dispatched on its event.
  pub signed_webhook :
      (digest : WebhookDto → List ℕ) (dto : WebhookDto) (d : PaystackData) (w : World)
      → dto.payload ≡ some d
      → handle_paystack_webhook orm digest dto (digest dto) w ≡ dispatch orm dto.event d w
  unfolding handle_paystack_webhook
  signed_webhook digest dto d w e = let same = same_bytes_refl (digest dto) in ground arith

  -- A webhook request whose signature is not the digest of its body changes nothing, and is not
  -- answered with true.
  pub webhook_needs_signature :
      (digest : WebhookDto → List ℕ) (dto : WebhookDto) (signature : List ℕ) (w : World)
      → digest dto ≢ signature
      → ((handle_paystack_webhook orm digest dto signature w).1 ≡ w)
        × ((handle_paystack_webhook orm digest dto signature w).0 ≢ ok true)
  unfolding handle_paystack_webhook
  webhook_needs_signature digest dto signature w ne =
      elim (Bool-cases (same_bytes (digest dto) signature)) [
        | inl e ↦ absurd (ne (same_bytes_sound (digest dto) signature e))
        | inr e ↦ ground arith
      ]

  invoice_updated_flag : (d : PaystackData) (w : World) → (invoice_updated orm d w).0 ≢ ok true
  unfolding invoice_updated
  invoice_updated_flag d w = ground arith

  invoice_created_flag :
      (d : PaystackData) (w : World) → (dispatch orm invoice_create d w).0 ≢ ok true
  unfolding dispatch
  invoice_created_flag d w = elim (Result-cases (subscription_invoice_created orm d w).0) [
    | inl (x, e) ↦
        let later = invoice_updated_flag d (subscription_invoice_created orm d w).1 in ground arith
    | inr (x, e) ↦ ground arith
  ]

  -- Neither `invoice.create` nor `invoice.update` is ever answered with true.
  pub invoice_never_acknowledged :
      (d : PaystackData) (w : World)
      → ((dispatch orm invoice_create d w).0 ≢ ok true)
        × ((dispatch orm invoice_update d w).0 ≢ ok true)
  unfolding dispatch
  invoice_never_acknowledged d w = (invoice_created_flag d w, invoice_updated_flag d w)

-- ===== src/Tests/PaymentRuns.antt =====
-- The jobs on payments on the sample rows.
use sojourn_backend.Prelude.{ℕ, ◌≡◌, refl, Bool, true, false, Option, some, All}
use sojourn_backend.Entities.{is_confirmed}
use sojourn_backend.Tasks.PaymentJobs.{handle_update_payments}
use sojourn_backend.Tasks.Confirmed.{IsUnpaid, update_payments_confirms_paid}
use sojourn_backend.Tests.Database.{list_orm}
use sojourn_backend.Tests.Samples.{sample}

-- NowPayments, when every payment is finished.
abbrev finished : Option ℕ → Option Bool
finished ref = some true

update_payments_confirms_paid_example :
    All
      (λ c. IsUnpaid sample.payments c → is_confirmed c.status ≡ false)
      (handle_update_payments list_orm sample).1.credits
update_payments_confirms_paid_example =
    update_payments_confirms_paid list_orm sample (λ e h. absurd cc, (λ e h. absurd cc, tt))
      (λ h. absurd (h.0 refl refl), (λ h. refl, tt))

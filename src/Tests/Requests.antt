-- ===== src/Tests/Requests.antt =====
-- Requests of a referrer on the sample rows.
use sojourn_backend.Prelude.{pos, some, [], ◌∷◌}
use sojourn_backend.Entities.{ReferalStatus, ReferalTransactionStatus, ReferalType}
use sojourn_backend.App.{World}
use sojourn_backend.Referals.Requests.{AddWithdrawalRequest}
use sojourn_backend.Tests.Samples.{sample}

-- One referral that was paid.
abbrev referred : World
referred = record sample {
  referals =
      record {
        id = 1;
        referer_id = 41;
        user_id = some 40;
        booking_id = some 10;
        amount = pos 500;
        payment_status = ReferalTransactionStatus.credit;
        paystack_status = ReferalStatus.paid;
        payment_type = ReferalType.incoming;
        reference = some 101;
      }
      ∷ [];
}

abbrev four_hundred : AddWithdrawalRequest
four_hundred = record {
  user_id = 41;
  referer_id = 41;
  amount = pos 400;
  bank_name = 1;
  bank_account_number = 2;
}

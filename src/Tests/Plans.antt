-- ===== src/Tests/Plans.antt =====
-- Subscriptions, reminders and conversations on sample rows.
use sojourn_backend.Prelude.{ℕ, ◌≡◌, ◌≢◌, ◌⊎◌, some, none, true, Option, List, [], ◌∷◌, ◌++◌, All}
use sojourn_backend.Entities.{Subscription, SubscriptionActiveStatus, MessageStatus}
use sojourn_backend.App.{World, Event, ok}
use sojourn_backend.Checkout.Initialize.{PaystackReply}
use sojourn_backend.Subscriptions.{
  InitializeSubscription, PaystackSubscriptions, get_subscription_by_host_id,
  cancel_subscription_by_host_id, cancel_subscription_outcome,
}
use sojourn_backend.Tasks.Reminder.{handle_bookings_reminder, IsDue, handle_bookings_reminder-IsDue}
use sojourn_backend.Messages.Tickets.{
  get_messages_by_ticket_id, get_tickets_by_guest_id, get_tickets_by_host_id,
}
use sojourn_backend.Messages.Reading.{NoneUnread, reading_clears_unread}
use sojourn_backend.Tests.Database.{list_orm}
use sojourn_backend.Tests.Samples.{on, sample}
use sojourn_backend.Tests.Checkouts.{accepted}

abbrev plan : Subscription
plan = record {
  id = 70;
  host_id = 30;
  plan_id = 1;
  plan_name = 2;
  active_status = SubscriptionActiveStatus.active;
  next_payment_date = none;
  initial_payment_reference = 3;
  email_token = none;
  customer_id = none;
  customer_email = 300;
  customer_code = none;
  subscription_code = some 4;
  authorization_code = none;
}

abbrev subscribed : World
subscribed = record sample { subscriptions = plan ∷ [] }

-- Paystack, when it knows every code and disables it.
abbrev willing : PaystackSubscriptions
willing = record { fetch = λ code. some (true, some 9); disable = λ code token. some true }

cancel_subscription_outcome_example :
    let (r, w') = cancel_subscription_by_host_id list_orm willing 30 subscribed in
    ((r ≢ ok tt) × (w' ≡ subscribed))
    ⊎ ((s : Subscription) × (code : ℕ) × (token : ℕ) × (r ≡ ok tt)
        × (get_subscription_by_host_id list_orm 30 subscribed ≡ some s)
        × (s.subscription_code ≡ some code)
        × (willing.fetch code ≡ some (true, some token))
        × (willing.disable code token ≡ some true)
        × (w'.subscriptions
            ≡ list_orm.save Subscription
                (λ x. x.id)
                (record s { active_status = SubscriptionActiveStatus.not_active })
                subscribed.subscriptions))
cancel_subscription_outcome_example = cancel_subscription_outcome list_orm willing 30 subscribed

abbrev wish : InitializeSubscription
wish = record { host_id = 30; plan_id = 5; plan_name = 6; amount = 700 }

abbrev welcoming : ℕ → ℕ → ℕ → Option PaystackReply
welcoming email chosen amount = some accepted

-- Two days before the arrival.
handle_bookings_reminder-IsDue_example :
    (es : List Event) × ((handle_bookings_reminder list_orm (on 1) sample).1
      ≡ record sample { events = sample.events ++ es })
    × All (IsDue list_orm (on 1) sample) es
handle_bookings_reminder-IsDue_example = handle_bookings_reminder-IsDue list_orm (on 1) sample

abbrev talk : World
talk = record sample {
  tickets =
      (record {
        id = 80;
        user_id = 40;
        host_id = 30;
        booking_id = some 10;
        property_id = none;
        title = 1;
      })
      ∷ [];
  messages =
      (record {
        id = 90;
        ticket_id = some 80;
        user_id = 40;
        host_id = 30;
        sender_id = 40;
        message = 2;
        status = MessageStatus.unread;
      })
      ∷ [];
}

reading_clears_unread_example :
    let w' = (get_messages_by_ticket_id list_orm 80 talk).1 in
    NoneUnread 80 (get_tickets_by_guest_id list_orm 40 w')
    × NoneUnread 80 (get_tickets_by_host_id list_orm 30 w')
reading_clears_unread_example = reading_clears_unread list_orm 80 40 30 talk

-- ===== src/Messages/Tickets.antt =====
-- The operations on tickets and messages. What a view shows of names, photos, titles of
-- properties and dates is left out, and the order of the rows with it.
use sojourn_backend.Prelude.{
  ℕ, ◌+◌, ℤ, pos, ◌+ℤ◌, Bool, true, false, not, ◌&&◌, Option, none, some, List, [], ◌∷◌, map, holds,
  ◌==◌, if◌then◌else◌,
}
use sojourn_backend.Entities.{Payment, Property, Message, MessageStatus, Ticket}
use sojourn_backend.Orm.{Orm, where_eq}
use sojourn_backend.App.{World, Handler, ok, ◌>>=◌, ◌>>◌, pure, gets, modify, deref}

-- `MessageType`, without the date
pub record MessageType : Type 0 where
  pub user_id : ℕ
  pub host_id : ℕ
  pub sender_id : ℕ
  pub message : ℕ
  pub ticket_id : Option ℕ

-- `CreateTicketType`
pub record CreateTicketType : Type 0 where
  pub sender_id : ℕ
  pub user_id : ℕ
  pub host_id : ℕ
  pub booking_id : Option ℕ
  pub property_id : Option ℕ
  pub title : ℕ
  pub message : ℕ

-- A line of the table of tickets
pub record TicketLine : Type 0 where
  pub id : ℕ
  pub booking_id : Option ℕ
  pub unread : ℕ

-- A message as it is shown: whether it is shown as the host's
pub record MessageLine : Type 0 where
  pub message : ℕ
  pub host : Bool

pub record TicketView : Type 0 where
  pub user_id : ℕ
  pub host_id : ℕ
  pub messages : List MessageLine
  pub amount_paid : ℤ
  pub property_id : ℕ
  pub price : ℕ
  pub caution_fee : ℕ

abbrev pub is_unread : MessageStatus → Bool
is_unread MessageStatus.unread = true
is_unread MessageStatus.read = false

-- `count++` for each message that is unread
unfoldable pub count_unread_messages : List Message → ℕ
count_unread_messages [] = 0
count_unread_messages (m ∷ ms) =
    let rest = count_unread_messages ms in if is_unread m.status then 1 + rest else rest

module _ (orm : Orm) where
  -- `MessagesRepository.createMessage`, of a message that is unread
  unfoldable pub create_message : MessageType → Handler Message
  create_message v w =
      let m : Message = record {
        id = orm.generate Message (λ x. x.id) w.messages;
        ticket_id = v.ticket_id;
        user_id = v.user_id;
        host_id = v.host_id;
        sender_id = v.sender_id;
        message = v.message;
        status = MessageStatus.unread;
      } in
      (ok m, record w { messages = orm.save Message (λ x. x.id) m w.messages })

  unfoldable pub send_message : MessageType → Handler (Unit {0})
  unfolding create_message
  send_message v = do create_message v; pure tt

  -- `addTicket` with its first message, which the save of the ticket links to it.
  unfoldable pub add_ticket : CreateTicketType → ℕ → Message → Handler Ticket
  add_ticket dto host m w =
      let t : Ticket = record {
        id = orm.generate Ticket (λ x. x.id) w.tickets;
        user_id = dto.user_id;
        host_id = host;
        booking_id = dto.booking_id;
        property_id = dto.property_id;
        title = dto.title;
      } in
      (
        ok t,
        record w {
          tickets = orm.save Ticket (λ x. x.id) t w.tickets;
          messages = orm.save Message (λ x. x.id) (record m { ticket_id = some t.id }) w.messages;
        },
      )

  -- The host of a ticket without a booking is the one of the property.
  unfoldable pub host_of_ticket : CreateTicketType → Handler ℕ
  host_of_ticket dto = elim dto.booking_id [
    | some b ↦ pure dto.host_id
    | none ↦ do
      property ←
          deref
            (← gets λ w.
              orm.find_one Property (λ p. where_eq orm (some p.id) dto.property_id) w.properties)
      pure property.host_id
  ]

  unfoldable pub create_ticket : CreateTicketType → Handler Ticket
  unfolding host_of_ticket create_message add_ticket
  create_ticket dto = do
    host ← host_of_ticket dto
    m ← create_message (record {
      user_id = dto.user_id;
      host_id = host;
      sender_id = dto.sender_id;
      message = dto.message;
      ticket_id = none;
    })
    add_ticket dto host m

  -- The relation `ticket.messages`
  unfoldable pub messages_of : World → ℕ → List Message
  messages_of w i = orm.find Message (λ m. holds m.ticket_id i) w.messages

  unfoldable pub ticket_line : (Ticket → List Message) → Ticket → TicketLine
  unfolding count_unread_messages
  ticket_line messages t = record {
    id = t.id;
    booking_id = t.booking_id;
    unread = count_unread_messages (messages t);
  }

  abbrev pub is_empty_list : List Message → Bool
  is_empty_list [] = true
  is_empty_list (m ∷ ms) = false

  -- The messages that are not the host's own, which are those that the condition leaves in the
  -- relation; a ticket without one is not found.
  unfoldable pub messages_to_host : World → ℕ → Ticket → List Message
  messages_to_host w host t =
      orm.find Message (λ m. holds m.ticket_id t.id && not (m.sender_id == host)) w.messages

  unfoldable pub get_tickets_by_host_id : ℕ → World → List TicketLine
  unfolding messages_to_host ticket_line
  get_tickets_by_host_id host w = map (ticket_line (messages_to_host w host)) (
      orm.find Ticket (λ t. (t.host_id == host) && not (is_empty_list (messages_to_host w host t)))
        w.tickets)

  unfoldable pub get_tickets_by_guest_id : ℕ → World → List TicketLine
  unfolding messages_of ticket_line
  get_tickets_by_guest_id guest w =
      map (ticket_line (λ t. messages_of w t.id))
        (orm.find Ticket (λ t. t.user_id == guest) w.tickets)

  unfoldable pub mark_read : ℕ → Handler (Unit {0})
  mark_read i = modify λ w. record w {
    messages =
        orm.update Message (λ m. holds m.ticket_id i)
          (λ m. record m { status = MessageStatus.read }) w.messages;
  }

  -- A ticket with its messages; one without any is not found.
  unfoldable pub ticket_with_messages : ℕ → World → Option Ticket
  unfolding messages_of
  ticket_with_messages i w =
      orm.find_one Ticket (λ t. (t.id == i) && not (is_empty_list (messages_of w t.id))) w.tickets

  abbrev pub related : {Row : Type 0} → (Row → ℕ) → Option ℕ → List Row → Option Row
  related key none t = none
  related key (some i) t = orm.find_one _ (λ r. key r == i) t

  -- What was paid for the booking of a ticket, and the property that is shown.
  unfoldable pub paid_and_property : Ticket → Handler (ℤ × Property × ℕ)
  paid_and_property t = do
    booking ← gets λ w. related (λ b. b.id) t.booking_id w.bookings
    elim booking [
      | some b ↦ do
        p ← deref (← gets λ w. orm.find_one Payment (λ p. holds p.booking_id b.id) w.payments)
        property ←
            deref (← gets λ w. orm.find_one Property (λ x. x.id == b.property_id) w.properties)
        pure (p.amount +ℤ p.transaction_fee, property, b.property_id)
      | none ↦ do
        own ← deref (← gets λ w. related (λ x. x.id) t.property_id w.properties)
        property ← deref (← gets λ w. orm.find_one Property (λ x. x.id == own.id) w.properties)
        pure (pos 0, property, own.id)
    ]

  -- `fees[0] ? fees[0] : …`: both assignments are to `fees[0]`, so it is the deposit, and `fees[1]`
  -- is never there.
  unfoldable pub shown_price : Property → Option Property → ℕ
  shown_price property own =
      if property.caution_fee == 0
      then (elim own [ none ↦ 0 | some x ↦ x.price ])
      else property.caution_fee

  unfoldable pub shown_caution_fee : Option Property → ℕ
  shown_caution_fee none = 0
  shown_caution_fee (some x) = x.caution_fee

  -- The messages are marked as read before the ticket is looked for.
  unfoldable pub get_messages_by_ticket_id : ℕ → Handler TicketView
  unfolding mark_read ticket_with_messages messages_of paid_and_property shown_price
      shown_caution_fee
  get_messages_by_ticket_id i = do
    mark_read i
    t ← deref (← gets (ticket_with_messages i))
    (amount, property, property_id) ← paid_and_property t
    own ← gets λ w. related (λ x. x.id) t.property_id w.properties
    messages ← gets λ w. messages_of w t.id
    pure (record {
      user_id = t.user_id;
      host_id = t.host_id;
      messages =
          map (λ m. record { message = m.message; host = not (m.sender_id == t.user_id) }) messages;
      amount_paid = amount;
      property_id = property_id;
      price = shown_price property own;
      caution_fee = shown_caution_fee own;
    })

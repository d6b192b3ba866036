-- ===== src/Messages/Reading.antt =====
-- What reading a conversation does to the numbers of unread messages.
use sojourn_backend.Prelude.{
  ℕ, ◌≡◌, refl, true, not, ◌&&◌, some, List, [], ◌∷◌, map, holds, All, All-zip, All-every,
  All-mapped, ◌==◌, arith,
}
use sojourn_backend.Entities.{Message, MessageStatus, Ticket}
use sojourn_backend.Orm.{Orm}
use sojourn_backend.App.{World}
use sojourn_backend.Messages.Tickets.{
  TicketLine, count_unread_messages, ticket_line, messages_of, messages_to_host,
  get_tickets_by_host_id, get_tickets_by_guest_id, mark_read, paid_and_property,
  get_messages_by_ticket_id,
}

count_none :
    (ms : List Message) → All (λ m. m.status ≡ MessageStatus.read) ms → count_unread_messages ms ≡ 0
unfolding count_unread_messages
count_none [] h = refl
count_none (m ∷ ms) h = let rest = count_none ms h.1 in ground (arith, h.0)

-- The lines of a ticket count no unread message.
abbrev pub NoneUnread : ℕ → List TicketLine → Type 0
NoneUnread i = All (λ line. line.id ≡ i → line.unread ≡ 0)

module _ (orm : Orm) where
  abbrev ReadIn : ℕ → World → Type 0
  ReadIn i w = All (λ m. m.ticket_id ≡ some i → m.status ≡ MessageStatus.read) w.messages

  read-mark_read : (i : ℕ) (w : World) → ReadIn i (mark_read orm i w).1
  unfolding mark_read
  read-mark_read i w =
      orm.update_all Message (λ m. m.ticket_id ≡ some i → m.status ≡ MessageStatus.read)
        (λ m. holds m.ticket_id i) (λ m. record m { status = MessageStatus.read }) w.messages
        (All-every _ (λ m. (λ hit _. refl, λ miss same. absurd (ground arith))) w.messages)

  -- Nothing after the marking writes.
  world-get_messages :
      (i : ℕ) (w : World) → (get_messages_by_ticket_id orm i w).1 ≡ (mark_read orm i w).1
  unfolding get_messages_by_ticket_id paid_and_property mark_read
  world-get_messages i w = ground arith

  lines-NoneUnread :
      (i : ℕ) (w : World) (messages : Ticket → List Message) (rows : List Ticket)
      → ((t : Ticket) → t.id ≡ i → All (λ m. m.status ≡ MessageStatus.read) (messages t))
      → NoneUnread i (map (ticket_line orm messages) rows)
  unfolding ticket_line
  lines-NoneUnread i w messages rows read =
      All-mapped (λ line. line.id ≡ i → line.unread ≡ 0) (ticket_line orm messages) rows
        (All-every _ (λ t same. count_none (messages t) (read t same)) rows)

  -- Once the messages of a ticket have been asked for, neither the table of any guest nor that of
  -- any host counts an unread message of it.
  pub reading_clears_unread :
      (i guest host : ℕ) (w : World)
      → let w' = (get_messages_by_ticket_id orm i w).1 in
        NoneUnread i (get_tickets_by_guest_id orm guest w')
        × NoneUnread i (get_tickets_by_host_id orm host w')
  unfolding get_tickets_by_guest_id get_tickets_by_host_id messages_of messages_to_host
  reading_clears_unread i guest host w =
      let w' = (mark_read orm i w).1 in
      let read = read-mark_read i w in
      rw (world-get_messages i w) (
        lines-NoneUnread i w' (λ t. messages_of orm w' t.id) _
            (λ t same.
              All-zip (λ m. holds m.ticket_id t.id ≡ true)
                (λ m. m.ticket_id ≡ some i → m.status ≡ MessageStatus.read) _
                (λ m hit h. h (ground arith)) _ (orm.find_sound Message _ w'.messages)
                (orm.find_keeps Message _ _ w'.messages read)),
        lines-NoneUnread i w' (messages_to_host orm w' host) _ (λ t same.
            All-zip (λ m. (holds m.ticket_id t.id && not (m.sender_id == host)) ≡ true)
              (λ m. m.ticket_id ≡ some i → m.status ≡ MessageStatus.read) _
              (λ m hit h. h (ground arith)) _ (orm.find_sound Message _ w'.messages)
              (orm.find_keeps Message _ _ w'.messages read)),
      )

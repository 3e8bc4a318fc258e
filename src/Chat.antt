-- ===== src/Chat.antt =====
-- chat/chat.service.ts: the messages of the two people on a job. The notice to the recipient is
-- left out.
pub mod Threads
pub mod Reading
mod Tests
use novax_backend.Common.{
  ℕ, Bool, true, false, not, ◌&&◌, ◌||◌, ◌==◌, ltb, Option, none, some, List, [], ◌∷◌, length,
  is_none, is_some_of, if◌then◌else◌,
}
use novax_backend.Common.Action.{
  Action, Result, ok, err, bad_request, not_found, forbidden, pure, gets, or_raise, raise_if,
  modify, ◌>>=◌, ◌>>◌,
}
use novax_backend.Common.Table.{Table, find, find_many, create, update_many}
use novax_backend.Common.Text.{Text, codes, text_eq}
use novax_backend.Schema.Enums.{MatchScope}
use novax_backend.Schema.Rows.{ChatMessage}
use novax_backend.Schema.Db.{Db, Message, Topic, send}

-- `CONTEXT_TYPES`
unfoldable pub context_of : Text → Option MatchScope
context_of s =
    if text_eq s (codes "TRIP")
    then some MatchScope.trip
    else if text_eq s (codes "DELIVERY")
    then some MatchScope.delivery
    else if text_eq s (codes "FOOD_ORDER")
    then some MatchScope.food_order
    else if text_eq s (codes "ERRAND")
    then some MatchScope.errand
    else none

-- The customer of a job and its driver.
abbrev pub Pair : Type 0
Pair = ℕ × Option ℕ

abbrev pub parties_of : MatchScope → (job : ℕ) → Db → Option Pair
parties_of MatchScope.trip k db = elim (find k db.trips) [
  | none ↦ none
  | some t ↦ some (t.rider_id, t.driver_id)
]
parties_of MatchScope.delivery k db = elim (find k db.deliveries) [
  | none ↦ none
  | some x ↦ some (x.sender_id, x.driver_id)
]
parties_of MatchScope.food_order k db = elim (find k db.food_orders) [
  | none ↦ none
  | some o ↦ some (o.customer_id, o.driver_id)
]
parties_of MatchScope.errand k db = elim (find k db.errands) [
  | none ↦ none
  | some e ↦ some (e.requester_id, e.driver_id)
]

-- `resolveParticipants`
unfoldable pub resolve_participants : MatchScope → (job : ℕ) → Action Db Pair
resolve_participants scope k = do or_raise (← gets (parties_of scope k)) not_found

abbrev pub takes_part : (user : ℕ) → Pair → Bool
takes_part user (a, b) = a == user || is_some_of user b

abbrev pub same_scope : MatchScope → MatchScope → Bool
same_scope MatchScope.trip s = elim s [ MatchScope.trip ↦ true | _ ↦ false ]
same_scope MatchScope.delivery s = elim s [ MatchScope.delivery ↦ true | _ ↦ false ]
same_scope MatchScope.food_order s = elim s [ MatchScope.food_order ↦ true | _ ↦ false ]
same_scope MatchScope.errand s = elim s [ MatchScope.errand ↦ true | _ ↦ false ]

abbrev pub of_thread : MatchScope → (job row : ℕ) → ChatMessage → Bool
of_thread scope k _ m = same_scope scope m.context_type && m.context_id == k

-- What the methods of a thread check first.
unfoldable pub enter : Text → (job user : ℕ) → Action Db (MatchScope × Pair)
unfolding context_of resolve_participants
enter context_type k user = do
  scope ← or_raise (context_of context_type) bad_request
  parties ← resolve_participants scope k
  raise_if (not (takes_part user parties)) forbidden
  pure (scope, parties)

-- The newest message first; the source turns the list around.
unfoldable pub list_messages : Text → (job user : ℕ) → Action Db (List (ℕ × ChatMessage))
list_messages context_type k user = do
  thread ← enter context_type k user
  gets (λ db. find_many (of_thread thread.0 k) db.chat_messages)

abbrev pub chat_message : MatchScope → (job sender now : ℕ) → Text → ChatMessage
chat_message scope k sender now body = record {
  context_type = scope;
  context_id = k;
  sender_id = sender;
  body = body;
  delivered_at = some now;
  read_at = none;
}

abbrev pub event : Topic → MatchScope → (job to : ℕ) → Message
event topic scope k to = record { to = some to; topic = topic; scope = scope; job = k }

-- `senderId === a ? b : a`
abbrev pub other_of : (user a b : ℕ) → ℕ
other_of user a b = if a == user then b else a

unfoldable pub send_message : Text → (job sender row now : ℕ) (body : Text) → Action Db ChatMessage
send_message context_type k sender row now body = do
  thread ← enter context_type k sender
  driver ← or_raise thread.1.1 bad_request
  modify (λ db. record db {
    chat_messages = create row (chat_message thread.0 k sender now body) db.chat_messages;
  })
  send (event Topic.chat_message thread.0 k (other_of sender thread.1.0 driver) ∷ [])
  pure (chat_message thread.0 k sender now body)

-- `{ contextType, contextId, senderId: { not: readerId }, readAt: null }`
abbrev pub is_unread : MatchScope → (job reader row : ℕ) → ChatMessage → Bool
is_unread scope k reader row m =
    of_thread scope k row m && not (m.sender_id == reader) && is_none m.read_at

abbrev pub read_by : (now : ℕ) → ChatMessage → ChatMessage
read_by now m = record m { read_at = some now; delivered_at = some now }

unfoldable pub unread_in : MatchScope → (job reader : ℕ) → Db → ℕ
unread_in scope k reader db = length (find_many (is_unread scope k reader) db.chat_messages)

-- The event for the other one, if there is one.
abbrev pub read_events : MatchScope → (job reader : ℕ) → Pair → (count : ℕ) → List Message
read_events scope k reader (a, b) count =
    if ltb 0 count
    then if a == reader
      then elim b [ none ↦ [] | some d ↦ event Topic.chat_read scope k d ∷ [] ]
      else event Topic.chat_read scope k a ∷ []
    else []

unfoldable pub mark_read : Text → (job reader now : ℕ) → Action Db ℕ
unfolding unread_in
mark_read context_type k reader now = do
  thread ← enter context_type k reader
  count ← gets (unread_in thread.0 k reader)
  modify (λ db. record db {
    chat_messages = update_many (is_unread thread.0 k reader) (read_by now) db.chat_messages;
  })
  send (read_events thread.0 k reader thread.1 count)
  pure count

-- No question is asked about who the caller is.
unfoldable pub unread_count : Text → (job user : ℕ) → Action Db ℕ
unfolding context_of unread_in
unread_count context_type k user = do
  scope ← or_raise (context_of context_type) bad_request
  gets (unread_in scope k user)

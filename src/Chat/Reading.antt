-- ===== src/Chat/Reading.antt =====
-- What reading a thread does.
use novax_backend.Common.{
  ℕ, ◌∙◌, ◌≡◌, refl, Bool, false, Bool-cases, inl, inr, List, [], ◌∷◌, ◌++◌, some, arith,
}
use novax_backend.Common.Action.{ok}
use novax_backend.Common.Table.{Table, find_many, update_many}
use novax_backend.Common.Text.{Text}
use novax_backend.Schema.Enums.{MatchScope}
use novax_backend.Schema.Rows.{ChatMessage}
use novax_backend.Schema.Db.{Db, Message}
use novax_backend.Chat.{
  Pair, context_of, parties_of, is_unread, read_by, unread_in, read_events, enter, mark_read,
  unread_count,
}
use novax_backend.Chat.Threads.{IsMember, enter-IsMember}

module _ (p : ℕ → ChatMessage → Bool) (f : ChatMessage → ChatMessage) where
  -- A row that is updated does not meet the test again.
  none_left :
      ((i : ℕ) (m : ChatMessage) → p i (f m) ≡ false)
      → (rows : Table ChatMessage) → find_many p (update_many p f rows) ≡ []
  unfolding find_many update_many
  none_left off [] = refl
  none_left off ((i, m) ∷ rows) = elim (Bool-cases (p i m)) [
    | inl e ↦ rw (e, off i m) (none_left off rows)
    | inr e ↦ rw (e, e) (none_left off rows)
  ]

  nothing_updated : (rows : Table ChatMessage) → find_many p rows ≡ [] → update_many p f rows ≡ rows
  unfolding find_many update_many
  nothing_updated [] h = refl
  nothing_updated ((i, m) ∷ rows) h = elim (Bool-cases (p i m)) [
    | inl e ↦ ground (arith, e, h)
    | inr e ↦ rw (e, nothing_updated rows (rw e at h)) refl
  ]

parties_same :
    (scope : MatchScope) (k : ℕ) (db : Db) (rows : Table ChatMessage) (sent : List Message)
    → parties_of scope k (record db { chat_messages = rows; sent = sent }) ≡ parties_of scope k db
parties_same MatchScope.trip k db rows sent = refl
parties_same MatchScope.delivery k db rows sent = refl
parties_same MatchScope.food_order k db rows sent = refl
parties_same MatchScope.errand k db rows sent = refl

module _ (context_type : Text) (k user now : ℕ) (db : Db) where
  -- The state that reading leaves.
  abbrev after : MatchScope → Pair → Db
  after scope parties = record db {
    chat_messages = update_many (is_unread scope k user) (read_by now) db.chat_messages;
    sent = read_events scope k user parties (unread_in scope k user db) ++ db.sent;
  }

  mark_read-ok :
      (scope : MatchScope) (parties : Pair)
      → enter context_type k user db ≡ (ok (scope, parties), db)
      → mark_read context_type k user now db ≡ (ok (unread_in scope k user db), after scope parties)
  unfolding mark_read
  mark_read-ok scope parties e = ground (arith, e)

  stays-IsMember :
      (scope : MatchScope) (parties : Pair)
      → IsMember context_type k user db scope parties
      → IsMember context_type k user (after scope parties) scope parties
  stays-IsMember scope parties (c, p, t) = (
    c,
    parties_same scope k db (after scope parties).chat_messages (after scope parties).sent ∙ p,
    t,
  )

  nothing_unread :
      (scope : MatchScope) (parties : Pair)
      → find_many (is_unread scope k user) (after scope parties).chat_messages ≡ []
  nothing_unread scope parties =
      none_left (is_unread scope k user) (read_by now) (λ i m. ground arith) db.chat_messages

unread_count-ok :
    (context_type : Text) (k user : ℕ) (db : Db) (scope : MatchScope)
    → context_of context_type ≡ some scope
    → unread_count context_type k user db ≡ (ok (unread_in scope k user db), db)
unfolding unread_count
unread_count-ok context_type k user db scope c = ground (arith, c)

-- Somebody of the thread who opens it is told how many messages were unread, the number that the
-- count had said; afterwards the count is 0, and to open it again says 0 and changes nothing, so
-- that the other one is not told again.
pub mark_read_once :
    (context_type : Text) (k user now later : ℕ) (db : Db) (scope : MatchScope) (parties : Pair)
    → IsMember context_type k user db scope parties
    → let (count, same) = unread_count context_type k user db in
      let (answer, db1) = mark_read context_type k user now db in
      (answer ≡ count)
      × (unread_count context_type k user db1 ≡ (ok 0, db1))
      × (mark_read context_type k user later db1 ≡ (ok 0, db1))
mark_read_once context_type k user now later db scope parties m =
    let read =
      mark_read-ok context_type k user now db scope parties
        (enter-IsMember context_type k user db scope parties m) in
    let db1 : Db = after context_type k user now db scope parties in
    let member = stays-IsMember context_type k user now db scope parties m in
    let gone = nothing_unread context_type k user now db scope parties in
    let zero_left : unread_in scope k user db1 ≡ 0 = unfold unread_in in rw gone refl in
    let kept : update_many (is_unread scope k user) (read_by later) db1.chat_messages
        ≡ db1.chat_messages =
      nothing_updated (is_unread scope k user) (read_by later) db1.chat_messages gone in
    let again =
      mark_read-ok context_type k user later db1 scope parties
        (enter-IsMember context_type k user db1 scope parties member) in
    rw (read, unread_count-ok context_type k user db scope m.0)
      (
        refl,
        unread_count-ok context_type k user db1 scope m.0 ∙ rw zero_left refl,
        again ∙ rw (zero_left, kept) refl,
      )

-- ===== src/Chat/Threads.antt =====
-- Who takes part in a thread, and where a message goes.
use novax_backend.Common.{
  ℕ, ◌≡◌, refl, ◌⊎◌, inl, inr, true, false, ◌==◌, Bool-cases, Option-cases, some, none, ◌∷◌, arith,
}
use novax_backend.Common.Action.{ok, err, Error, bad_request, not_found, forbidden}
use novax_backend.Common.Table.{create}
use novax_backend.Common.Text.{Text}
use novax_backend.Schema.Enums.{MatchScope}
use novax_backend.Schema.Db.{Db, Topic}
use novax_backend.Chat.{
  Pair, context_of, parties_of, takes_part, resolve_participants, enter, chat_message, event,
  other_of, send_message,
}

-- The text names a kind of job, the job exists, and the user is its customer or its driver.
abbrev pub IsMember : Text → (job user : ℕ) → Db → MatchScope → Pair → Type 0
IsMember context_type k user db scope parties =
    (context_of context_type ≡ some scope)
    × (parties_of scope k db ≡ some parties)
    × (takes_part user parties ≡ true)

module _ (context_type : Text) (k user : ℕ) (db : Db) where
  abbrev pub IsInside : Type 0
  IsInside = (scope : MatchScope) × (parties : Pair) × IsMember context_type k user db scope parties

  pub enter-IsMember :
      (scope : MatchScope) (parties : Pair)
      → IsMember context_type k user db scope parties
      → enter context_type k user db ≡ (ok (scope, parties), db)
  unfolding enter resolve_participants
  enter-IsMember scope parties (c, p, t) = ground (arith, c, p, t)

  -- A thread has one pair.
  pub one_pair :
      (s s' : MatchScope) (p p' : Pair)
      → IsMember context_type k user db s p
      → IsMember context_type k user db s' p'
      → p ≡ p'
  one_pair s s' p p' (c, n, t) (c', n', t') =
      let same : s ≡ s' = cc in let found : parties_of s k db ≡ some p' = rw same n' in cc

  outside :
      (scope : MatchScope) (parties : Pair)
      → context_of context_type ≡ some scope
      → parties_of scope k db ≡ some parties
      → takes_part user parties ≡ false
      → (s : MatchScope) (p : Pair) → ¬ IsMember context_type k user db s p
  outside scope parties c n t s p (c', n', t') =
      let same : scope ≡ s = cc in
      let found : parties_of scope k db ≡ some p = rw same n' in
      let equal : parties ≡ p = cc in let off : takes_part user p ≡ false = rw equal at t in cc

  -- Those who take part get in, and nobody else.
  pub enter_cases :
      ((scope : MatchScope) × (parties : Pair) × IsMember context_type k user db scope parties
        × (enter context_type k user db ≡ (ok (scope, parties), db)))
      ⊎ (¬ IsInside) × ((x : Error) × (enter context_type k user db ≡ (err x, db)))
  unfolding enter resolve_participants
  enter_cases = elim (Option-cases (context_of context_type)) [
    | inl c ↦ inr ((λ (s, p, m). let h = m.0 in cc), (bad_request, rw c refl))
    | inr (scope, c) ↦ elim (Option-cases (parties_of scope k db)) [
      | inl n ↦
          inr ((λ (s, p, m). let h = m.0 in let h' = m.1 in cc), (not_found, ground (arith, c, n)))
      | inr (parties, n) ↦ elim (Bool-cases (takes_part user parties)) [
        | inl t ↦ inl (scope, parties, (c, n, t), ground (arith, c, n, t))
        | inr t ↦
            inr (
              (λ (s, p, m). outside scope parties c n t s p m),
              (forbidden, ground (arith, c, n, t)),
            )
      ]
    ]
  ]

module _ (context_type : Text) (k sender row now : ℕ) (body : Text) (db : Db) where
  -- Who hears of a message.
  abbrev pub IsOther : (a d r : ℕ) → Type 0
  IsOther a d r = (sender ≡ a) × (r ≡ d) ⊎ (sender ≡ d) × (r ≡ a)

  other_of-IsOther :
      (a d : ℕ) → takes_part sender (a, some d) ≡ true → IsOther a d (other_of sender a d)
  other_of-IsOther a d t = elim (Bool-cases (a == sender)) [
    | inl e ↦ let same : sender ≡ a = ground arith in inl (same, rw e refl)
    | inr e ↦ let same : sender ≡ d = ground (arith, e, t) in inr (same, rw e refl)
  ]

  -- Nobody has the job yet.
  send-alone :
      (scope : MatchScope) (a : ℕ)
      → enter context_type k sender db ≡ (ok (scope, (a, none)), db)
      → send_message context_type k sender row now body db ≡ (err bad_request, db)
  unfolding send_message
  send-alone scope a e = ground (arith, e)

  send-ok :
      (scope : MatchScope) (a d : ℕ)
      → enter context_type k sender db ≡ (ok (scope, (a, some d)), db)
      → send_message context_type k sender row now body db ≡ (
        ok (chat_message scope k sender now body),
        record db {
          chat_messages = create row (chat_message scope k sender now body) db.chat_messages;
          sent = event Topic.chat_message scope k (other_of sender a d) ∷ db.sent;
        },
      )
  unfolding send_message
  send-ok scope a d e = ground (arith, e)

  -- A message is stored exactly when the text names a kind of job, the job exists and has a
  -- driver, and the sender is its customer or that driver. It is then the newest row, unread, and
  -- one event goes out, to the other of the two. Any other call is refused and changes nothing.
  pub send_message_answers :
      let (answer, db') = send_message context_type k sender row now body db in
      ((scope : MatchScope) × (a d r : ℕ) × IsMember context_type k sender db scope (a, some d)
        × (answer ≡ ok (chat_message scope k sender now body))
        × IsOther a d r
        × (db' ≡ record db {
          chat_messages = create row (chat_message scope k sender now body) db.chat_messages;
          sent = event Topic.chat_message scope k r ∷ db.sent;
        }))
      ⊎ (¬ ((scope : MatchScope) × (a d : ℕ) × IsMember context_type k sender db scope (a, some d)))
        × ((x : Error) × (answer ≡ err x))
        × (db' ≡ db)
  send_message_answers = elim (enter_cases context_type k sender db) [
    | inr (off, (x, e)) ↦
        let refused : send_message context_type k sender row now body db ≡ (err x, db) =
          unfold send_message in ground (arith, e) in
        rw refused (inr ((λ (s, a, d, m). off (s, (a, some d), m)), (x, refl), refl))
    | inl (scope, (a, b), m, e) ↦ elim (Option-cases b) [
      | inl n ↦ rw (send-alone scope a (rw n at e)) (
          inr (
            (λ (s, a', d, m').
                let pair = one_pair context_type k sender db s scope (a', some d) (a, b) m' m in
                ground (arith, pair, n)),
            (bad_request, refl),
            refl,
          ))
      | inr (d, n) ↦
          let told : IsMember context_type k sender db scope (a, some d) = rw n at m in
          rw (send-ok scope a d (rw n at e))
            (inl (scope, a, d, other_of sender a d, told, refl, other_of-IsOther a d told.2, refl))
    ]
  ]

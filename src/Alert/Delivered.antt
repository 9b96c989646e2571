-- ===== src/Alert/Delivered.antt =====
-- internal/alert/alert.go: what a Discord message holds, and when an alert counts as delivered.
use mathlib.Core.Path.{subst}
use backwyn.Prelude.{
  ◌≡◌, ◌≢◌, ◌↔◌, ◌⊎◌, refl, ap, ◌∙◌, inl, inr, ◌≤◌, ◌<◌, ℕ, true, false, Option, none, some, List,
  [], ◌∷◌, ◌++◌, Result, ok, err, Bool-cases, arith, length, take, ltb, length-append, length-take,
}
use backwyn.Prelude.Text.{Text, text_eq}
use backwyn.Alert.{
  Event, raw, content, Response, Web, new_alerter, is_discord, message, capped, payload, post,
  after_send, after_request, after_marshal, alert,
}
use backwyn.Alert.Runes.{runes, rune_at, string, runes-string, runes-AreRunes, take-AreRunes}

abbrev ellipsis : Text
ellipsis = 226 ∷ 128 ∷ 166 ∷ []

runes-ellipsis : runes ellipsis ≡ 8_230 ∷ []
unfolding runes rune_at
runes-ellipsis = refl

-- The characters of a message that is cut.
abbrev Capped : List ℕ → List ℕ → Type 0
Capped r out = (length r ≤ 2_000 → out ≡ r) × (2_000 < length r → out ≡ take 1_999 r ++ 8_230 ∷ [])

module _ {N : Type 0} (web : Web N) where
  runes-capped : (s : Text) → Capped (runes s) (runes (capped web s))
  unfolding capped
  runes-capped s = elim (Bool-cases (ltb 2_000 (length (runes s)))) [
    | inl long ↦
        let r = runes s in
        let cut : runes (string (take 1_999 r) ++ ellipsis) ≡ take 1_999 r ++ 8_230 ∷ [] =
          runes-string (take 1_999 r) ellipsis (take-AreRunes 1_999 r (runes-AreRunes s))
          ∙ ap (λ x. take 1_999 r ++ x) runes-ellipsis in
        rw long (λ h. absurd (ground arith), λ h. cut)
    | inr short ↦ rw short (λ h. refl, λ h. absurd (ground arith))
  ]

  Capped-short : (r out : List ℕ) → Capped r out → length out ≤ 2_000
  Capped-short r out c = elim (Bool-cases (ltb 2_000 (length r))) [
    | inl long ↦
        let e : out ≡ take 1_999 r ++ 8_230 ∷ [] = c.1 (ground arith) in
        rw e (omega (arith, length-append (take 1_999 r) (8_230 ∷ []), length-take 1_999 r))
    | inr short ↦ let e : out ≡ r = c.0 (ground arith) in rw e (ground arith)
  ]

  -- A webhook of Discord gets a message of at most 2000 characters: the whole text of the event where
  -- it has no more, and otherwise its first 1999 and an ellipsis. Any other URL gets the event itself.
  pub payload_lem :
      (url : Text) (e : Event)
      → (is_discord web url ≡ false → payload web url e ≡ raw e)
        × (is_discord web url ≡ true
            → (c : Text) × (payload web url e ≡ content c)
              × (length (runes c) ≤ 2_000)
              × (length (runes (message web e)) ≤ 2_000 → runes c ≡ runes (message web e))
              × (2_000 < length (runes (message web e))
                  → runes c ≡ take 1_999 (runes (message web e)) ++ 8_230 ∷ []))
  unfolding payload
  payload_lem url e = (
    λ h. rw h refl,
    λ h.
        let text = message web e in
        let cut = runes-capped text in
        (
          capped web text,
          rw h refl,
          Capped-short (runes text) (runes (capped web text)) cut,
          cut.0,
          cut.1,
        ),
  )

  -- The event was posted, once, and the answer's status is a success.
  abbrev pub Sent : Text → Event → N → N → Type 0
  Sent url e n n' =
      (body : Text) × (web.marshal (payload web url e) ≡ ok body)
      × (web.refuse url body ≡ none)
      × ((resp : Response) × (web.send (post web url body) n ≡ (ok resp, n'))
          × (200 ≤ resp.status_code)
          × (resp.status_code < 300))

  abbrev Answered : Result Text Response × N → N → Type 0
  Answered x n' =
      (resp : Response) × (x ≡ (ok resp, n')) × (200 ≤ resp.status_code) × (resp.status_code < 300)

  after_send_iff :
      (x : Result Text Response × N)
      → ((after_send web x).0 ≡ ok tt) ↔ Answered x (after_send web x).1
  unfolding after_send
  after_send_iff (err e, n) = (λ h. absurd (ground arith), λ h. absurd (ground arith))
  after_send_iff (ok resp, n) = (
    λ h. (resp, refl, ground arith, ground arith),
    λ a. let e : resp ≡ a.0 = ground arith in ground arith,
  )

  after_request_iff :
      (url body : Text) (o : Option Text) (n : N)
      → ((after_request web url body o n).0 ≡ ok tt) ↔ (
          (o ≡ none) × Answered (web.send (post web url body) n) (after_request web url body o n).1)
  unfolding after_request
  after_request_iff url body (some e) n = (λ h. absurd (ground arith), λ h. absurd (ground arith))
  after_request_iff url body none n =
      let (to, from) = after_send_iff (web.send (post web url body) n) in
      (λ h. (refl, to h), λ h. from h.1)

  after_marshal_iff :
      (url : Text) (r : Result Text Text) (n : N)
      → ((after_marshal web url r n).0 ≡ ok tt) ↔ (
          (body : Text) × (r ≡ ok body)
          × (web.refuse url body ≡ none)
          × Answered (web.send (post web url body) n) (after_marshal web url r n).1)
  unfolding after_marshal
  after_marshal_iff url (err e) n = (λ h. absurd (ground arith), λ h. absurd (ground arith))
  after_marshal_iff url (ok body) n =
      let (to, from) = after_request_iff url body (web.refuse url body) n in
      let n' = (after_request web url body (web.refuse url body) n).1 in
      (
        λ h. (body, refl, (to h).0, (to h).1),
        λ q.
            let same : q.0 ≡ body = ground arith in
            from (
              subst (λ b. (web.refuse url b ≡ none) × Answered (web.send (post web url b) n) n')
                same (q.2, q.3)),
      )

  -- `Alert` returns no error exactly where no webhook is set, and then nothing is sent, or where the
  -- event was marshalled and posted to the webhook, once, and answered with a status from 200 to 299.
  pub alert-Sent :
      (url : Text) (e : Event) (n : N)
      → ((alert web (new_alerter url) e n).0 ≡ ok tt) ↔ (
          ((url ≡ []) × ((alert web (new_alerter url) e n).1 ≡ n))
          ⊎ ((url ≢ []) × Sent url e n (alert web (new_alerter url) e n).1))
  unfolding alert new_alerter text_eq
  alert-Sent [] e n = (λ h. inl (refl, refl), λ q. refl)
  alert-Sent (c ∷ s) e n =
      let (to, from) = after_marshal_iff (c ∷ s) (web.marshal (payload web (c ∷ s) e)) n in
      (
        λ h. inr (λ empty. absurd (ground arith), to h),
        λ q. elim q [ inl (empty, _) ↦ absurd (ground arith) | inr (_, sent) ↦ from sent ],
      )

-- ===== src/Alert/Tests.antt =====
-- internal/alert/alert.go: runs against a webhook that counts its requests.
use backwyn.Prelude.{
  ◌≡◌, ◌≢◌, ◌↔◌, ◌⊎◌, refl, ℕ, suc, ◌≤◌, ◌<◌, true, false, none, [], ◌∷◌, ◌++◌, ok, err, length,
  take, if◌then◌else◌,
}
use backwyn.Prelude.Text.{Text, lit, text_eq}
use backwyn.Alert.{
  Event, level_error, Payload, raw, content, Web, new_alerter, is_discord, message, payload, alert,
}
use backwyn.Alert.Runes.{runes, rune_at}
use backwyn.Alert.Delivered.{payload_lem, alert-Sent, Sent}

abbrev body_of : Payload → Text
body_of (raw e) = e.detail
body_of (content c) = c

-- Its first answer is 204, each later one 503. A URL stands for its own host.
unfoldable counting : Web ℕ
unfolding text_eq
counting = record {
  parse_url = λ u. ok (record { hostname = u; escaped_path = lit "/api/webhooks/1" });
  to_lower = λ s. s;
  marshal = λ p. ok (body_of p);
  refuse = λ url body. none;
  send = λ r n. (
    ok (
        if text_eq r.body []
        then record { status_code = 503; status = lit "503 Service Unavailable" }
        else record { status_code = 204; status = lit "204 No Content" }),
    suc n,
  );
}

abbrev failed : Event
failed = record { level = level_error; title = lit "t"; detail = lit "d"; time = 0 }

abbrev empty : Event
empty = record failed { detail = [] }

alert_runs : alert counting (new_alerter (lit "h")) failed 0 ≡ (ok tt, 1)
unfolding alert new_alerter lit counting
alert_runs = refl

alert_fails :
    alert counting (new_alerter (lit "h")) empty 0
    ≡ (err (lit "alert webhook returned 503 Service Unavailable"), 1)
unfolding alert new_alerter lit counting
alert_fails = refl

discord_runs : payload counting (lit "discord.com") failed ≡ content (lit "**t** (error)\nd")
unfolding payload counting lit rune_at
discord_runs = refl

runes_run : runes (195 ∷ 169 ∷ 255 ∷ 97 ∷ []) ≡ 233 ∷ 65_533 ∷ 97 ∷ []
unfolding runes rune_at
runes_run = refl

payload_lem_example :
    (is_discord counting (lit "discord.com") ≡ false
      → payload counting (lit "discord.com") failed ≡ raw failed)
    × (is_discord counting (lit "discord.com") ≡ true
        → (c : Text) × (payload counting (lit "discord.com") failed ≡ content c)
          × (length (runes c) ≤ 2_000)
          × (length (runes (message counting failed)) ≤ 2_000
              → runes c ≡ runes (message counting failed))
          × (2_000 < length (runes (message counting failed))
              → runes c ≡ take 1_999 (runes (message counting failed)) ++ 8_230 ∷ []))
payload_lem_example = payload_lem counting (lit "discord.com") failed

alert-Sent_example : ((alert counting (new_alerter (lit "h")) failed 0).0 ≡ ok tt) ↔ (
    ((lit "h" ≡ []) × ((alert counting (new_alerter (lit "h")) failed 0).1 ≡ 0))
    ⊎ ((lit "h" ≢ [])
        × Sent counting (lit "h") failed 0 (alert counting (new_alerter (lit "h")) failed 0).1))
alert-Sent_example = alert-Sent counting (lit "h") failed 0

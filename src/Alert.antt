-- ===== src/Alert.antt =====
-- internal/alert/alert.go: events, and the webhook that they are posted to.
pub mod Runes
pub mod Delivered
mod Tests
use backwyn.Prelude.{
  ℕ, Bool, true, false, not, ◌&&◌, ◌||◌, Option, none, some, List, [], ◌∷◌, ◌++◌, Result, ok, err,
  length, take, ltb, leb, if◌then◌else◌,
}
use backwyn.Prelude.Text.{Text, lit, text_eq, has_prefix, has_suffix}
use backwyn.Time.{Time}
use Runes.{runes, string}

-- `Level`
pub data Level : Type 0 where
  level_info : Level
  level_warn : Level
  level_error : Level

unfoldable pub show_level : Level → Text
show_level level_info = lit "info"
show_level level_warn = lit "warn"
show_level level_error = lit "error"

-- `Event`
pub record Event : Type 0 where
  pub level : Level
  pub title : Text
  pub detail : Text
  pub time : Time

-- What `payload` returns: the event itself, or a Discord message.
pub data Payload : Type 0 where
  raw : Event → Payload
  content : Text → Payload

-- What is used of a parsed `url.URL`.
pub record Address : Type 0 where
  pub hostname : Text
  pub escaped_path : Text

pub record Request : Type 0 where
  pub method : Text
  pub url : Text
  pub content_type : Text
  pub body : Text

pub record Response : Type 0 where
  pub status_code : ℕ
  pub status : Text

-- What is used of `net/url`, `encoding/json` and `net/http`, over a state `N` of the network:
-- `refuse` is the error of `http.NewRequestWithContext`, `send` is `client.Do`.
pub record Web (N : Type 0) : Type 0 where
  pub parse_url : Text → Result Text Address
  pub to_lower : Text → Text
  pub marshal : Payload → Result Text Text
  pub refuse : Text → Text → Option Text
  pub send : Request → N → Result Text Response × N

-- `Noop` and `Webhook`
pub data Alerter : Type 0 where
  noop : Alerter
  webhook : Text → Alerter

-- `New`
unfoldable pub new_alerter : Text → Alerter
unfolding text_eq
new_alerter url = if text_eq url [] then noop else webhook url

module _ {N : Type 0} (web : Web N) where
  -- `isDiscord` for a URL that was parsed.
  unfoldable pub is_discord_at : Address → Bool
  unfolding text_eq has_suffix has_prefix
  is_discord_at u =
      let host = web.to_lower u.hostname in
      if not (text_eq host (lit "discord.com"))
        && (not (text_eq host (lit "discordapp.com")) && not (has_suffix host (lit ".discord.com")))
      then false
      else has_prefix u.escaped_path (lit "/api/webhooks/")

  -- `isDiscord`
  unfoldable pub is_discord : Text → Bool
  unfolding is_discord_at
  is_discord url = elim (web.parse_url url) [ err e ↦ false | ok u ↦ is_discord_at u ]

  -- The message of an event.
  unfoldable pub message : Event → Text
  unfolding show_level
  message e =
      lit "**" ++ (e.title ++ (lit "** (" ++ (show_level e.level ++ (lit ")\n" ++ e.detail))))

  -- A message of more than 2000 characters is cut, with an ellipsis for the rest.
  unfoldable pub capped : Text → Text
  unfolding runes string take
  capped s =
      let r = runes s in
      if ltb 2_000 (length r) then string (take 1_999 r) ++ 226 ∷ 128 ∷ 166 ∷ [] else s

  -- `payload`
  unfoldable pub payload : Text → Event → Payload
  unfolding is_discord message capped
  payload url e = if not (is_discord url) then raw e else content (capped (message e))

  -- `Webhook.Alert` behind `client.Do`
  unfoldable pub after_send : Result Text Response × N → Result Text (Unit {0}) × N
  after_send (err e, n) = (err (lit "post alert: " ++ e), n)
  after_send (ok resp, n) = (
    if ltb resp.status_code 200 || leb 300 resp.status_code
        then err (lit "alert webhook returned " ++ resp.status)
        else ok tt,
    n,
  )

  -- The request of an alert.
  unfoldable pub post : Text → Text → Request
  post url body = record {
    method = lit "POST";
    url = url;
    content_type = lit "application/json";
    body = body;
  }

  -- `Webhook.Alert` behind `http.NewRequestWithContext`
  unfoldable pub after_request : Text → Text → Option Text → N → Result Text (Unit {0}) × N
  unfolding after_send post
  after_request url body (some e) n = (err e, n)
  after_request url body none n = after_send (web.send (post url body) n)

  -- `Webhook.Alert` behind `json.Marshal`
  unfoldable pub after_marshal : Text → Result Text Text → N → Result Text (Unit {0}) × N
  unfolding after_request
  after_marshal url (err e) n = (err e, n)
  after_marshal url (ok body) n = after_request url body (web.refuse url body) n

  -- `Alert` of both alerters
  unfoldable pub alert : Alerter → Event → N → Result Text (Unit {0}) × N
  unfolding after_marshal payload
  alert noop e n = (ok tt, n)
  alert (webhook url) e n = after_marshal url (web.marshal (payload url e)) n

-- ===== src/Notify.antt =====
-- internal/notify: notifications by ntfy, by an Apprise server, and to several at once. Go's
-- interface `Notifier` is a record with its one method.
pub mod Laws
use teslausb_neo.Base.{String, ◌<>◌, Option, none, some, List, [], ◌∷◌, ◌++◌, ◌==◌, if◌then◌else◌}
use teslausb_neo.Base.Int.{ℤ, pos, leb_ℤ, ltb_ℤ}
use teslausb_neo.Host.{post, Host}
use teslausb_neo.Host.Io.{M}
use teslausb_neo.Host.Fallible.{Result, ok, err, Done, return, fail, ◌>>=◌, wrap, try}

abbrev pub event_start : String
event_start = "start"

abbrev pub event_finish : String
event_finish = "finish"

abbrev pub event_warning : String
event_warning = "warning"

abbrev pub event_error : String
event_error = "error"

pub record Notifier : Type 0 where
  pub send : String → String → String → Done

-- Multi.Send's loop: the messages of those that failed, in order.
unfoldable pub send_all : List Notifier → String → String → String → M (List String)
send_all [] title message event t = ([], t)
send_all (n ∷ ns) title message event t =
    let (r, t') = n.send title message event t in
    let (rest, t'') = send_all ns title message event t' in
    (elim r [ ok _ ↦ rest | err m ↦ m ∷ rest ], t'')

-- strings.Join(errs, "; ")
unfoldable pub join_errors : List String → String
join_errors [] = ""
join_errors (m ∷ ms) = elim ms [ [] ↦ m | _ ∷ _ ↦ m <> "; " <> join_errors ms ]

combined : List String → Result (Unit {0})
unfolding join_errors
combined [] = ok tt
combined (m ∷ ms) = err ("notify: " <> join_errors (m ∷ ms))

-- NewMulti drops nil entries.
unfoldable pub valid : List (Option Notifier) → List Notifier
valid [] = []
valid (none ∷ ns) = valid ns
valid (some n ∷ ns) = n ∷ valid ns

unfoldable pub new_multi : List (Option Notifier) → Notifier
unfolding valid send_all combined
new_multi ns = record {
  send = λ title message event t.
      let (errs, t') = send_all (valid ns) title message event t in (combined errs, t');
}

-- noopNotifier of cmd/teslausb/main.go
unfoldable pub noop_notifier : Notifier
noop_notifier = record { send = λ title message event. return tt }

-- mapEventType
unfoldable pub map_event_type : String → String
map_event_type event =
    if event == event_start
    then "info"
    else if event == event_finish
    then "success"
    else if event == event_warning
    then "warning"
    else if event == event_error
    then "failure"
    else "info"

module _ (H : Host) where
  -- The test on resp.StatusCode, which is the answer's amount.
  unfoldable pub check_status : String → ℤ → Done
  check_status prefix status =
      if ltb_ℤ status (pos 200)
      then fail (prefix <> H.itoa status)
      else if leb_ℤ (pos 300) status
      then fail (prefix <> H.itoa status)
      else return tt

  -- NtfyNotifier, its URL, priority and token, as NewNtfy makes it.
  unfoldable pub new_ntfy : String → String → String → Notifier
  unfolding check_status
  new_ntfy url priority token = record {
    send = λ title message event. do
      let level = if priority == "" then "default" else priority
      let headers = ("Title", title) ∷ ("Priority", level) ∷ ("Tags", event) ∷ []
      let auth : List (String × String) =
          if token == "" then [] else ("Authorization", "Bearer " <> token) ∷ []
      a ← wrap "ntfy: send" (try H (post url (headers ++ auth) message))
      check_status "ntfy: unexpected status " a.amount;
  }

  -- AppriseNotifier. `payload` stands for json.Marshal of title, body and type.
  unfoldable pub new_apprise : (String → String → String → String) → String → Notifier
  unfolding check_status map_event_type
  new_apprise payload url = record {
    send = λ title message event. do
      let body = payload title message (map_event_type event)
      a ←
          wrap "apprise: send"
            (try H (post (url <> "/notify") (("Content-Type", "application/json") ∷ []) body))
      check_status "apprise: unexpected status " a.amount;
  }

-- ===== src/Presence/Reconciler.antt =====
-- internal/presence/reconciler.go: the state that the poller, the connect loop and the watchers of
-- sessions share under its mutex, and the poller's two calls. Each function between a lock and its
-- unlock is one atomic change.
pub mod Static
use minecraft_afk_bot.Logging.{severity_info, text}
use minecraft_afk_bot.Presence.Api.{Api}
use minecraft_afk_bot.Presence.Client.{
  Result, ok, err, ClientError, Fetched, Client, Status, Net, fetch, report,
}
use minecraft_afk_bot.Presence.Streak.{Kind, quiet, LogCall, Streak, failed, succeeded}
use minecraft_afk_bot.Prelude.Strings.{codes}
use minecraft_afk_bot.Prelude.{
  Text, ℕ, ◌+◌, Bool, true, false, not, List, [], ◌∷◌, ◌++◌, Option, none, some, equal, ◌==◌,
  if◌then◌else◌,
}

-- The channels that `make` has given out, by number, and which of them are closed.
pub record Channels : Type 0 where
  pub made : ℕ
  pub closed : ℕ → Bool

pub record Reconciler : Type 0 where
  pub client : Client
  pub version : Text
  pub desired : Text
  pub etag : Text
  pub connected : Bool
  -- the channel that the next change closes
  pub changed : ℕ
  pub channels : Channels
  pub fetch_streak : Streak
  pub report_streak : Streak

abbrev pub close_channel : ℕ → Channels → Channels
close_channel c chans = record chans { closed = λ d. if c == d then true else chans.closed d }

unfoldable pub new_reconciler : Client → Text → Text → Reconciler
new_reconciler client initial version = record {
  client = client;
  version = version;
  desired = initial;
  etag = [];
  connected = false;
  changed = 0;
  channels = record { made = 1; closed = λ d. false };
  fetch_streak = record { event = codes "presence_fetch"; kind = quiet };
  report_streak = record { event = codes "presence_report"; kind = quiet };
}

-- `set`: the tag is kept in any case; a change of state is logged, closes the channel and makes the
-- next one.
unfoldable pub set : Text → Text → Reconciler → Reconciler × List LogCall
set state etag r =
    let r' = record r { etag = etag } in
    let call : LogCall = record {
      severity = severity_info;
      event = codes "presence_changed";
      fields = (codes "from", text r.desired) ∷ (codes "to", text state) ∷ [];
    } in
    let chans = close_channel r.changed r.channels in
    if equal state r.desired then (r', []) else (
      record r' {
        desired = state;
        changed = chans.made;
        channels = record chans { made = chans.made + 1 };
      },
      call ∷ [],
    )

-- `Connected`.
unfoldable pub set_connected : Bool → Reconciler → Reconciler
set_connected c r = record r { connected = c }

-- `poll` once `Fetch` has returned; `done` is `ctx.Err() != nil`.
unfoldable pub apply_fetched : Bool → Result Fetched → Reconciler → Reconciler × List LogCall
apply_fetched done (err e) r =
    let (streak, calls) = failed r.fetch_streak e r.desired in
    if not done then (record r { fetch_streak = streak }, calls) else (r, [])
apply_fetched done (ok res) r =
    let (streak, calls) = succeeded r.fetch_streak in
    let r' = record r { fetch_streak = streak } in
    let (r'', more) = set res.effective res.etag r' in
    if not res.not_modified then (r'', calls ++ more) else (r', calls)

-- `report` once the client's `Report` has returned.
unfoldable pub apply_reported :
    Bool → Text → Option ClientError → Reconciler → Reconciler × List LogCall
apply_reported done observed (some e) r =
    let (streak, calls) = failed r.report_streak e observed in
    if not done then (record r { report_streak = streak }, calls) else (r, [])
apply_reported done observed none r =
    let (streak, calls) = succeeded r.report_streak in (record r { report_streak = streak }, calls)

module _ (api : Api) where
  unfoldable pub poll : Net → Bool → Reconciler → Reconciler × List LogCall
  poll net done r = apply_fetched done (fetch api net r.client r.etag) r

  -- The status that a report carries; its time stamp is not modelled.
  abbrev pub status_of : Reconciler → Status
  status_of r = record {
    connected = r.connected;
    observed_state = r.desired;
    process_version = r.version;
  }

  unfoldable pub report_status : Net → Bool → Reconciler → Reconciler × List LogCall
  report_status net done r =
      let st = status_of r in apply_reported done st.observed_state (report api net r.client st) r

  -- `tick`: the network and the context of the two calls in turn.
  unfoldable pub tick : Net → Net → Bool → Bool → Reconciler → Reconciler × List LogCall
  unfolding poll report_status
  tick net net' done done' r =
      let (r', calls) = poll net done r in
      let (r'', more) = report_status net' done' r' in (r'', calls ++ more)

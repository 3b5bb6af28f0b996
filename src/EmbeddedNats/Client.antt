-- ===== src/EmbeddedNats/Client.antt =====
-- embeddednats/embeddednats.go: `NATSServer`, `ClientURL` and the connections. How a connection is made
-- is an argument.
use go_toolbelt.Base.{ℕ, String, Option, none, some, if◌then◌else◌, str_eq}
use go_toolbelt.Base.Result.{Result, ok, err}
use go_toolbelt.EmbeddedNats.Launch.{Options}
use go_toolbelt.EmbeddedNats.{Server}

-- `NATSServer`, by the number of the server.
pub nats_server : Server → Option ℕ
nats_server s = elim s.running [ none ↦ none | some r ↦ some r.id ]

-- `ClientURL`; the URL of a server is the server's own.
pub client_url : (ℕ → String) → Options → Server → String
unfolding nats_server
client_url url_of options s =
    if options.dont_listen then "" else elim (nats_server s) [ none ↦ "" | some i ↦ url_of i ]

pub data ConnectError : Type 0 where
  not_listening not_running : ConnectError
  nats_failed : ℕ → ConnectError

-- What a connection goes to: a URL, or the server in the same process.
pub data Target : Type 0 where
  url : String → Target
  in_process : ℕ → Target

module _ (dial : Target → Result ℕ ℕ) where
  abbrev pub dialed : Target → Result ConnectError ℕ
  dialed t = elim (dial t) [ ok c ↦ ok c | err e ↦ err (nats_failed e) ]

  -- `Connect`
  pub connect : (ℕ → String) → Options → Server → Result ConnectError ℕ
  unfolding client_url
  connect url_of options s =
      let u = client_url url_of options s in
      if str_eq u "" then err not_listening else dialed (url u)

  -- `ConnectInProcess`
  pub connect_in_process : Server → Result ConnectError ℕ
  unfolding nats_server
  connect_in_process s = elim (nats_server s) [
    | none ↦ err not_running
    | some i ↦ dialed (in_process i)
  ]

-- ===== src/HttpServer/Life.antt =====
-- httpserver/httpserver.go: the life of a server, any sequence of calls of `Start` and `Stop` and of ends
-- of the serving goroutine, with what they meet.
mod Tests
use go_toolbelt.Base.{
  ℕ, zero, suc, ◌+◌, ◌≤◌, ◌≡◌, refl, sym, ap, subst, ◌∙◌, ◌==◌, Bool, true, false, List, [], ◌∷◌,
  ◌++◌, Option, none, some, All, arith, Option-cases, inl, inr, if◌then◌else◌, is_some,
}
use go_toolbelt.Base.Result.{Result, ok, err}
use go_toolbelt.HttpServer.{
  Config, Handler, OptionFn, with_listener, with_logger, apply_option, apply_options, new, Server,
  Serving, StartError, start, listen_and_serve, serve, ServeEnd, serve_failed, ended_well,
  server_closed, served, Outcomes, Effect, shut_down, force_close, stop, stop_serving, joined,
}

pub data Event : Type 0 where
  starts : Result ℕ ℕ → Event
  ends : ServeEnd → Event
  stops : Outcomes → Event

-- A server, what the calls of `Stop` have done, and how many calls of `Start` have returned nil.
pub record Life : Type 0 where
  pub server : Server
  pub effects : List Effect
  pub started : ℕ

abbrev pub is_nil : Option StartError → ℕ
is_nil none = 1
is_nil (some e) = 0

pub perform : Event → Life → Life
unfolding start served stop
perform (starts listened) l =
    let (s, e) = start listened l.server in record l { server = s; started = l.started + is_nil e }
perform (ends e) l = record l { server = (served e l.server).0 }
perform (stops o) l = record l { effects = l.effects ++ (stop o l.server).1 }

pub perform_all : List Event → Life → Life
unfolding perform
perform_all [] l = l
perform_all (e ∷ es) l = perform_all es (perform e l)

abbrev pub listener_of : Effect → ℕ
listener_of (shut_down l) = l
listener_of (force_close l) = l

-- A server that `New` has made.
pub new_life : Config → Option Handler → List OptionFn → Life
new_life cfg handler os = record { server = new cfg handler os; effects = []; started = 0 }

-- A server has started as often as it serves, and what `Stop` has done was done to the listener that it
-- serves.
abbrev pub IsSound : Option Serving → List Effect → ℕ → Type 0
IsSound none effects n = (n ≡ 0) × (effects ≡ [])
IsSound (some h) effects n = (n ≡ 1) × All (λ e. listener_of e ≡ h.listener) effects

apply_options-server : (os : List OptionFn) (s : Server) → (apply_options os s).server ≡ s.server
unfolding apply_options apply_option
apply_options-server [] s = refl
apply_options-server (with_listener l ∷ os) s = apply_options-server os (record s { listener = l })
apply_options-server (with_logger none ∷ os) s = apply_options-server os s
apply_options-server (with_logger (some k) ∷ os) s =
    apply_options-server os (record s { logger = k })

new-IsSound :
    (cfg : Config) (handler : Option Handler) (os : List OptionFn)
    → IsSound (new cfg handler os).server [] 0
unfolding new
new-IsSound cfg handler os =
    subst (λ r. IsSound r [] 0) (sym (apply_options-server os _)) (refl, refl)

-- A server that does not serve, behind `listen_and_serve`.
listen-IsSound :
    (listened : Result ℕ ℕ) (s : Server)
    → s.server ≡ none
    → IsSound (listen_and_serve listened s).0.server [] (0 + is_nil (listen_and_serve listened s).1)
unfolding listen_and_serve serve
listen-IsSound listened s p = elim (Option-cases s.listener) [
  | inr (k, q) ↦ simp (q, listen_and_serve) (refl, tt)
  | inl q ↦
      elim listened
        as (λ r. IsSound (listen_and_serve r s).0.server [] (0 + is_nil (listen_and_serve r s).1)) [
          | ok k ↦ simp (q, listen_and_serve) (refl, tt)
          | err e ↦ simp (q, p, listen_and_serve) (refl, refl)
        ]
]

start-IsSound :
    (listened : Result ℕ ℕ) (s : Server) (effects : List Effect) (n : ℕ)
    → IsSound s.server effects n
    → IsSound (start listened s).0.server effects (n + is_nil (start listened s).1)
unfolding start
start-IsSound listened s effects n h = elim (Option-cases s.server) [
  | inl p ↦ let (z, e) = rw p at h in simp (p, start) (rw (z, e) (listen-IsSound listened s p))
  | inr (r, p) ↦
      let same : n ≡ n + 0 = omega arith in
      rw (p, start) (subst (λ m. IsSound s.server effects m) same h)
]

on_listener-append :
    (k : ℕ) (xs ys : List Effect)
    → All (λ e. listener_of e ≡ k) xs
    → All (λ e. listener_of e ≡ k) ys
    → All (λ e. listener_of e ≡ k) (xs ++ ys)
on_listener-append k [] ys a b = b
on_listener-append k (x ∷ xs) ys a b = (a.0, on_listener-append k xs ys a.1 b)

stop_serving-on_listener :
    (o : Outcomes) (e : Option ℕ) (r : Serving)
    → All (λ x. listener_of x ≡ r.listener) (stop_serving o e r).1
unfolding stop_serving
stop_serving-on_listener o e r = elim (Option-cases o.shutdown_err) [
  | inl p ↦ rw (p, stop_serving) (refl, tt)
  | inr (x, p) ↦ rw (p, stop_serving) (refl, (refl, tt))
]

stop-IsSound :
    (o : Outcomes) (s : Server) (effects : List Effect) (n : ℕ)
    → IsSound s.server effects n
    → IsSound s.server (effects ++ (stop o s).1) n
unfolding stop
stop-IsSound o s effects n h = elim (Option-cases s.server) [
  | inl p ↦ let (z, e) = rw p at h in rw (p, stop) (z, rw e refl)
  | inr (r, p) ↦
      let (z, a) = rw p at h in
      rw (p, stop)
        (z, on_listener-append r.listener effects _ a (stop_serving-on_listener o s.serve_err r))
]

perform-IsSound :
    (e : Event) (l : Life)
    → IsSound l.server.server l.effects l.started
    → IsSound (perform e l).server.server (perform e l).effects (perform e l).started
unfolding perform served
perform-IsSound (starts listened) l h = start-IsSound listened l.server l.effects l.started h
perform-IsSound (ends ended_well) l h = h
perform-IsSound (ends server_closed) l h = h
perform-IsSound (ends (serve_failed e)) l h = h
perform-IsSound (stops o) l h = stop-IsSound o l.server l.effects l.started h

perform_all-IsSound :
    (es : List Event) (l : Life)
    → IsSound l.server.server l.effects l.started
    → let m = perform_all es l in IsSound m.server.server m.effects m.started
unfolding perform_all
perform_all-IsSound [] l h = h
perform_all-IsSound (e ∷ es) l h = perform_all-IsSound es (perform e l) (perform-IsSound e l h)

-- Whatever the calls and the ends of the serving goroutine, in whatever order: a server starts at most
-- once, exactly if it serves; and `Stop` shuts down and closes nothing but the listener it serves, and
-- nothing at all before it does.
pub serves_one_listener :
    (es : List Event) (cfg : Config) (handler : Option Handler) (os : List OptionFn)
    → let l = perform_all es (new_life cfg handler os) in
      IsSound l.server.server l.effects l.started
unfolding new_life
serves_one_listener es cfg handler os =
    perform_all-IsSound es (new_life cfg handler os) (new-IsSound cfg handler os)

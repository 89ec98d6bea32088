-- ===== src/Broker/Process.antt =====
-- The broker's process: cmd/message_queue/main.go, and the health server of
-- cmd/message_queue/http_server.go.
use message_queue.Prelude.{ℕ, ◌≡◌, refl, ap, Bool, true, false, List, [], ◌∷◌, ◌++◌, if◌then◌else◌}
use message_queue.Prelude.Go.{Go}
use message_queue.Prelude.Text.{Text, codes, text_eq}
use message_queue.Config.{Environment, get_env, delivery_mode}
use message_queue.Broker.Handlers.{Broker, new_broker, close}

-- What `ln.Accept` answers: a connection, the error of a closed listener, or another error.
pub data Accept (Conn : Type 0) : Type 0 where
  accepted : Conn → Accept Conn
  net_closed failed : Accept Conn

-- The accept loop over what `Accept` answers: the connections for which a handler is started, and
-- whether the loop has returned.
pub accept_loop : {Conn : Type 0} → List (Accept Conn) → List Conn × Bool
accept_loop [] = ([], false)
accept_loop (accepted conn ∷ rest) = (conn ∷ (accept_loop rest).0, (accept_loop rest).1)
accept_loop (failed ∷ rest) = accept_loop rest
accept_loop (net_closed ∷ rest) = ([], true)

-- The two health endpoints; the server's multiplexer answers 404 on all other paths.
pub record Health : Type 0 where
  pub status : ℕ
  pub body : Text

pub health : Text → Health
health path =
    if text_eq path (codes "/healthz")
    then record { status = 200; body = codes "{\"status\":\"ok\"}" }
    else if text_eq path (codes "/ready")
    then record { status = 200; body = codes "{\"status\":\"ready\"}" }
    else record { status = 404; body = codes "404 page not found\n" }

-- The exit code where the process cannot listen, or the broker after the signal.
pub data Exit : Type 0 where
  exited : ℕ → Exit
  shut_down : Go Broker → Exit

-- `listen` tells which addresses can be listened on, and `handlers` is what the handlers do to the
-- broker until the signal comes.
pub main : (Text → Bool) → (Broker → Broker) → Environment → Exit
main listen handlers os =
    if listen (codes ":" ++ get_env os (codes "TCP_PORT") (codes "9080"))
    then shut_down (close (handlers (new_broker (delivery_mode os))))
    else exited 1

-- The connections before the listener's close.
abbrev before_close : {Conn : Type 0} → List (Accept Conn) → List (Accept Conn)
before_close [] = []
before_close (accepted conn ∷ rest) = accepted conn ∷ before_close rest
before_close (failed ∷ rest) = failed ∷ before_close rest
before_close (net_closed ∷ rest) = []

abbrev connections : {Conn : Type 0} → List (Accept Conn) → List Conn
connections [] = []
connections (accepted conn ∷ rest) = conn ∷ connections rest
connections (failed ∷ rest) = connections rest
connections (net_closed ∷ rest) = connections rest

-- A handler is started for each connection that is accepted before the listener is closed, in this
-- order; other errors in between do not stop the loop.
accept_loop-before_close :
    {Conn : Type 0} (answers : List (Accept Conn))
    → (accept_loop answers).0 ≡ connections (before_close answers)
unfolding accept_loop
accept_loop-before_close [] = refl
accept_loop-before_close (accepted conn ∷ rest) = ap (◌∷◌ conn) (accept_loop-before_close rest)
accept_loop-before_close (failed ∷ rest) = accept_loop-before_close rest
accept_loop-before_close (net_closed ∷ rest) = refl

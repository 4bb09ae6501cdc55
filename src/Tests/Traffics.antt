-- ===== src/Tests/Traffics.antt =====
-- The goroutines of the UDP socket on two datagrams, and the theorems on them at these.
use cursedns.Prelude.{ℕ, true, ◌≡◌, refl, none, some, List, [], ◌∷◌, ◌++◌}
use cursedns.Resolver.Types.{external, err, udp, tcp}
use cursedns.Resolver.Request.{State}
use cursedns.Resolver.TraceStore.{new_trace_store}
use cursedns.Resolver.TraceStore.Ids.{id_program}
use cursedns.Resolver.Server.{done, result, request_id, server_program}
use cursedns.Resolver.Server.Goroutine.{
  Datagram, Job, Traffic, finish, refuse, begin, admit, arrive, receive, complete, quiet,
}
use cursedns.Resolver.Server.Udp.{Reach, received, completed, here, next}
use cursedns.Resolver.Server.Tcp
use cursedns.Resolver.Server.Tcp.Order
use cursedns.Resolver.Server.Tcp.Messages.{InOrder}
use cursedns.Resolver.Server.Udp.Replies
use cursedns.Resolver.Server.Udp.Replies.{IsServed}
use cursedns.Samples.Network.{start, root_addr}
use cursedns.Samples.Hosts.{bytes, bytes-IsWire, home, www_question, query_msg}

-- a query that is served, and one that does not desire recursion, from another port
abbrev wanted : Datagram
wanted = record { client = (root_addr, 5353); raw = 1 ∷ [] }

abbrev unwanted : Datagram
unwanted = record { client = (root_addr, 5354); raw = 0 ∷ [] }

abbrev first_traffic : Traffic (State ℕ)
first_traffic = quiet (wanted ∷ unwanted ∷ []) (some (new_trace_store 1)) start

abbrev both_read : Traffic (State ℕ)
both_read =
    receive bytes home udp unwanted
      (record (receive bytes home udp wanted (record first_traffic { unread = unwanted ∷ [] })) {
        unread = [];
      })

abbrev job : Job
job = record {
  datagram = wanted;
  start = start.world;
  req = query_msg true;
  question = www_question;
  id = "a1";
}

-- the second is refused while the handler of the first runs, which then fails
abbrev all_answered : Traffic (State ℕ)
all_answered =
    complete bytes home udp job (result (err (external "no answer")))
      (record both_read { jobs = [] })

both_read-Reach : Reach bytes home first_traffic both_read
unfolding receive arrive admit begin
both_read-Reach =
    next (next here (received first_traffic wanted (unwanted ∷ []) refl))
      (received _ unwanted [] refl)

job_running : both_read.jobs ≡ [] ++ job ∷ []
unfolding receive arrive admit begin refuse finish request_id server_program id_program
job_running = refl

all_answered-Reach : Reach bytes home first_traffic all_answered
all_answered-Reach =
    next both_read-Reach
      (completed both_read [] job [] (result (err (external "no answer"))) job_running)

Reach-quiet_example : IsServed bytes bytes-IsWire home (wanted ∷ unwanted ∷ []) all_answered
Reach-quiet_example =
    Replies.Reach-quiet bytes bytes-IsWire home (wanted ∷ unwanted ∷ []) (some (new_trace_store 1))
      start all_answered all_answered-Reach

-- a connection with the same two messages and one that is malformed
abbrev connection : List Datagram
connection = wanted ∷ unwanted ∷ record { client = (root_addr, 5353); raw = [] } ∷ []

abbrev connected : Traffic (State ℕ)
connected = quiet connection (some (new_trace_store 1)) start

abbrev one_running : Traffic (State ℕ)
one_running =
    receive bytes home tcp wanted (record connected {
      unread = unwanted ∷ record { client = (root_addr, 5353); raw = [] } ∷ [];
    })

-- the store is gone while the handler runs
abbrev one_answered : Traffic (State ℕ)
one_answered =
    complete bytes home tcp job done
      (record one_running { trace_store = none; host = start; jobs = [] })

one_running-jobs : one_running.jobs ≡ job ∷ []
unfolding receive arrive admit begin request_id id_program
one_running-jobs = refl

one_answered-Reach : Tcp.Reach bytes home connected one_answered
unfolding receive arrive admit begin request_id id_program
one_answered-Reach =
    Tcp.next
      (Tcp.next (Tcp.next Tcp.here (Tcp.received connected wanted _ refl refl))
        (Tcp.others_ran one_running none start))
      (Tcp.completed (record one_running { trace_store = none; host = start }) job done
        one_running-jobs)

Reach-ordered_example : InOrder bytes connection one_answered
Reach-ordered_example =
    Order.Reach-ordered bytes bytes-IsWire home connection (some (new_trace_store 1)) start
      one_answered one_answered-Reach

-- ===== src/Tests/Processes.antt =====
-- The theorems on the process and on the history of a trace store, at concrete inputs.
use cursedns.Prelude.{
  ℕ, ◌<◌, All, arith, ◌≤◌, Bool, true, none, some, List, [], ◌∷◌, length, if◌then◌else◌,
}
use cursedns.Resolver.Types.{external}
use cursedns.Resolver.TraceStore.{new_trace_store, serve_http}
use cursedns.Resolver.TraceStore.History
use cursedns.Resolver.TraceStore.History.{Call, store, serve, run_calls, IsServed}
use cursedns.Main.Run.{Process}
use cursedns.Main.Run.Shutdown
use cursedns.Tests.Witnesses.{blank}

-- an ID that is stored twice, in a store of two
abbrev calls : List Call
calls =
    store 1 "a1" blank
    ∷ store 2 "b2" blank
    ∷ serve "a1"
    ∷ store 3 "a1" blank
    ∷ store 4 "c3" blank
    ∷ []

run_calls-IsServed_example :
    let ts = run_calls calls (new_trace_store 2) in
    (length ts.ll ≤ 2) × IsServed calls "a1" (serve_http "a1" ts).0
run_calls-IsServed_example = History.run_calls-IsServed 2 calls "a1"

-- A process whose addresses are all taken but that of the HTTP server; its state says whether it
-- has been told to stop.
abbrev crowded : Process Bool
crowded = record {
  listen = λ l stopped. (some (external "address already in use"), stopped);
  listen_tcp = λ addr stopped. (none, stopped);
  ctx_err = λ stopped. if stopped then some (external "context canceled") else none;
  await = λ stopped. (external "context canceled", true);
  await_http = λ stopped. true;
}

abbrev random_bytes : List ℕ
random_bytes = 161 ∷ 7 ∷ 0 ∷ 255 ∷ 16 ∷ 32 ∷ 99 ∷ 200 ∷ 1 ∷ 2 ∷ 3 ∷ 4 ∷ 5 ∷ 6 ∷ 250 ∷ 128 ∷ []

random_bytes-small : All (λ b. b < 256) random_bytes
random_bytes-small = (
  omega arith,
  (
    omega arith,
    (
      omega arith,
      (
        omega arith,
        (
          omega arith,
          (
            omega arith,
            (
              omega arith,
              (
                omega arith,
                (
                  omega arith,
                  (
                    omega arith,
                    (
                      omega arith,
                      (omega arith, (omega arith, (omega arith, (omega arith, (omega arith, tt))))),
                    ),
                  ),
                ),
              ),
            ),
          ),
        ),
      ),
    ),
  ),
)

-- ===== src/Server/Dispatch/ReadWrite.antt =====
-- What a client of a server without a cluster reads after a write.
use kv.Prelude.{
  ℕ, suc, ◌≡◌, refl, Bool, true, false, some, List, [], ◌∷◌, ◌++◌, Bytes, codes, is_empty,
  bytes_beq, ap, ◌∙◌, arith, Option-cases, inl, inr,
}
use kv.Prelude.Int.{pos}
use kv.Protocol.{request_of, resp_protocol, put_command, get_command, upper}
use kv.Protocol.Arguments.{parse_args}
use kv.Protocol.Requests.{parse_request}
use kv.Protocol.Resp.Frames.{request_before, AllShort, parse_resp_request-request}
use kv.Storage.Memory
use kv.Storage.Memory.{MemoryStore, put_with_expire_at}
use kv.Storage.Memory.Refinement.{IsValid}
use kv.Storage.Memory.Reading.{get-put}
use kv.Cluster.ConsistentHash.{ClusterNode}
use kv.Cluster.Router.{is_leader}
use kv.Server.{KvServer, with_store}
use kv.Server.Store.{Timed, StoreMethods, memory_methods}
use kv.Server.Responses.{resp_simple, resp_bulk, should_route}
use kv.Server.Metrics.{record_request_metrics}
use kv.Server.Execute.{answers, Call, execute, execute_put, execute_get, copy_to_replicas}
use kv.Server.Dispatch.{
  process_lines, process_request_line, process_request, route, failed_response, then_later,
}

-- The frames of `SET key value` and `GET key`.
abbrev pub set_frame : Bytes → Bytes → Bytes
set_frame key value = request_before (codes "SET" ∷ key ∷ value ∷ []) []

abbrev pub get_frame : Bytes → Bytes
get_frame key = request_before (codes "GET" ∷ key ∷ []) []

set_args :
    (key value : Bytes)
    → is_empty key ≡ false
    → is_empty value ≡ false
    → parse_args resp_protocol (codes "SET" ∷ key ∷ value ∷ [])
      ≡ record (request_of resp_protocol put_command) { key = key; value = value }
unfolding parse_args upper bytes_beq
set_args key value ek ev = rw (ek, ev) refl

get_args :
    (key : Bytes)
    → is_empty key ≡ false
    → parse_args resp_protocol (codes "GET" ∷ key ∷ [])
      ≡ record (request_of resp_protocol get_command) { key = key }
unfolding parse_args upper bytes_beq
get_args key ek = rw ek refl

process_lines-cons :
    {S : Type 0} (methods : StoreMethods S) (hasher : Bytes → ℕ) (reserves : ℕ → Bool) (call : Call)
    (line : Bytes) (rest : List (Call × Bytes)) (s s' : KvServer S) (response : Bytes)
    (sent : List (ClusterNode × Bytes))
    → process_request_line methods hasher call reserves line s ≡ answers s' response sent
    → process_lines methods hasher reserves ((call, line) ∷ rest) s
      ≡ then_later methods hasher reserves response sent (
          process_lines methods hasher reserves rest
            (record_request_metrics call.latency_us (failed_response response) s'))
unfolding process_lines
process_lines-cons methods hasher reserves call line rest s s' response sent e =
    rw (process_lines, e) refl

module _ (hasher : Bytes → ℕ) (reserves : ℕ → Bool) (key : Bytes) (ek : is_empty key ≡ false) where
  parse_set :
      (value : Bytes)
      → is_empty value ≡ false
      → AllShort (codes "SET" ∷ key ∷ value ∷ [])
      → reserves 3 ≡ true
      → parse_request reserves (set_frame key value)
        ≡ some (record (request_of resp_protocol put_command) { key = key; value = value })
  unfolding parse_request
  parse_set value ev short room =
      parse_resp_request-request reserves (codes "SET") (key ∷ value ∷ []) room (omega arith) short
      ∙ ap some (set_args key value ek ev)

  parse_get :
      AllShort (codes "GET" ∷ key ∷ [])
      → reserves 2 ≡ true
      → parse_request reserves (get_frame key)
        ≡ some (record (request_of resp_protocol get_command) { key = key })
  unfolding parse_request
  parse_get short room =
      parse_resp_request-request reserves (codes "GET") (key ∷ []) room (omega arith) short
      ∙ ap some (get_args key ek)

  -- What is left of a PUT and a GET without a cluster.
  process_set :
      (call : Call) (value : Bytes) (s : KvServer Timed)
      → parse_request reserves (set_frame key value)
        ≡ some (record (request_of resp_protocol put_command) { key = key; value = value })
      → s.m_router.m_enabled ≡ false
      → process_request_line memory_methods hasher call reserves (set_frame key value) s
        ≡ answers (with_store (memory_methods.put key value) s).0 (resp_simple (codes "OK")) []
  unfolding process_request_line process_request route execute execute_put copy_to_replicas
      should_route is_leader Memory.put put_with_expire_at
  process_set call value s parsed off = rw (process_request_line, parsed, off, ek) refl

  get_answer :
      (call : Call) (s : KvServer Timed)
      → s.m_router.m_enabled ≡ false
      → process_request memory_methods hasher call
          (get_frame key)
          (record (request_of resp_protocol get_command) { key = key })
          s
        ≡ answers
            (with_store (memory_methods.get key) s).0
            (resp_bulk (with_store (memory_methods.get key) s).1)
            []
  unfolding process_request route execute execute_get should_route is_leader
  get_answer call s off = elim (Option-cases (with_store (memory_methods.get key) s).1) [
    | inl missing ↦ rw (off, missing) refl
    | inr (value, found) ↦ rw (off, found) refl
  ]

  process_get :
      (call : Call) (s : KvServer Timed)
      → parse_request reserves (get_frame key)
        ≡ some (record (request_of resp_protocol get_command) { key = key })
      → s.m_router.m_enabled ≡ false
      → process_request_line memory_methods hasher call reserves (get_frame key) s
        ≡ answers
            (with_store (memory_methods.get key) s).0
            (resp_bulk (with_store (memory_methods.get key) s).1)
            []
  unfolding process_request_line
  process_get call s parsed off = rw (process_request_line, parsed) (get_answer call s off)

  value_read :
      (value : Bytes) (s s' : KvServer Timed)
      → IsValid s.m_store.store
      → s'.m_store ≡ (with_store (memory_methods.put key value) s).0.m_store
      → (with_store (memory_methods.get key) s').1 ≡ some value
  unfolding Memory.put
  value_read value s s' h stored =
      ap (λ store. (memory_methods.get key store).1) stored
      ∙ get-put (s.m_store.clock s.m_store.reads) (s.m_store.clock (suc s.m_store.reads)) key value
          (pos 0) s.m_store.store h ek refl refl

  -- Without a cluster, on a server whose store is a memory store in a valid state, a client whose SET
  -- and then GET of the key in RESP arrive together, with no request between them, reads the value back,
  -- whatever bytes the key and the value hold, whatever keys the store held, and whatever the bound on
  -- the keys; neither is empty, and the parser accepts their lengths and counts.
  pub process_lines-set-get :
      (value : Bytes)
      → is_empty value ≡ false
      → AllShort (codes "SET" ∷ key ∷ value ∷ [])
      → reserves 3 ≡ true
      → reserves 2 ≡ true
      → (call call' : Call) (s : KvServer Timed) → s.m_router.m_enabled ≡ false
      → IsValid s.m_store.store
      → (s' : KvServer Timed) × (process_lines memory_methods hasher reserves
            ((call, set_frame key value) ∷ (call', get_frame key) ∷ [])
            s
          ≡ answers s' (resp_simple (codes "OK") ++ (resp_bulk (some value) ++ [])) [])
  unfolding process_lines record_request_metrics
  process_lines-set-get value ev short room room' call call' s off h = (
    after_get,
    process_lines-cons memory_methods hasher reserves call (set_frame key value)
          ((call', get_frame key) ∷ []) s _ (resp_simple (codes "OK")) []
          (process_set call value s (parse_set value ev short room) off)
        ∙ ap (then_later memory_methods hasher reserves (resp_simple (codes "OK")) []) (
            process_lines-cons memory_methods hasher reserves call' (get_frame key) [] after_set _
              (resp_bulk (some value)) [] second),
  )
    where
      after_set : KvServer Timed
      after_set =
          record_request_metrics call.latency_us (failed_response (resp_simple (codes "OK")))
            (with_store (memory_methods.put key value) s).0

      after_get : KvServer Timed
      after_get =
          record_request_metrics call'.latency_us (failed_response (resp_bulk (some value)))
            (with_store (memory_methods.get key) after_set).0

      second :
          process_request_line memory_methods hasher call' reserves (get_frame key) after_set
          ≡ answers (with_store (memory_methods.get key) after_set).0 (resp_bulk (some value)) []
      second =
          process_get call' after_set (parse_get (short.0, (short.1.0, tt)) room') off
          ∙ ap (λ v. answers (with_store (memory_methods.get key) after_set).0 (resp_bulk v) [])
              (value_read value s after_set h refl)

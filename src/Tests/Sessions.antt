-- ===== src/Tests/Sessions.antt =====
-- Sessions of crates/app/src/forward_server.rs at concrete inputs.
use intelnav.Base.{
  ℕ, ◌<◌, ◌≡◌, refl, ◌⊎◌, inl, true, false, none, some, List, [], ◌∷◌, ◌++◌, arith, take, All, ok,
}
use intelnav.Base.Table.{find, put}
use intelnav.Types.{LayerRange}
use intelnav.Wire.{Msg, prefill, session_init, session_ack, forward_hidden, fp16, Shape, decode}
use intelnav.Control.{
  SliceKey, SliceEntry, ControlState, ChainGuard, announcing, slice_key_eq, accept_chain,
}
use intelnav.Forward.{
  handle_connection, Engine, go_on, Conn, new_conn, LoadedSlice, Host, handle_msg, check_forward,
  forward, run_layers,
}
use intelnav.Forward.Session.{After, handle_msg-IsWellFormed, forward-ordered}
use intelnav.Forward.Sharing.{session_resets_other}
use intelnav.Forward.Guards.{IsChainEvent}
use intelnav.Forward.Balance.{handle_connection-balances}
use intelnav.Control.Chains.{Event, run}

-- A model whose keys are the positions that it has seen.
abbrev counter : Engine
counter = record {
  Handle = List ℕ;
  Data = ℕ;
  reset_cache = λ h. [];
  truncate_kv_to = λ h keep. (true, take keep h);
  forward_range = λ h x pos start end. (some x, h ++ pos ∷ []);
  decode_hidden = λ dtype shape bytes. some (shape, 0);
  encode_hidden = λ x dtype. some (x.0, []);
}

abbrev qwen : SliceKey
qwen = ("qwen", 12, 24)

abbrev qwen_layers : LayerRange
qwen_layers = record { start = 12; end = 24 }

abbrev entry : SliceEntry
entry = record {
  display_name = "Qwen";
  state = announcing;
  active_chains = 1;
  draining_since = none;
}

abbrev loaded_slice : LoadedSlice counter
loaded_slice = record { handle = 0 ∷ 1 ∷ []; local_offset = 12 }

abbrev host : Host counter
host = record {
  control = record { peer_id = "p"; started_at = 0; slices = (qwen, entry) ∷ [] };
  cache = (qwen, loaded_slice) ∷ [];
  shards = λ cid. none;
}

abbrev first_conn : Conn
first_conn = record {
  session_id = some 1;
  index_pos = 2;
  last_seq = 2;
  active_slice = some qwen;
  guard_held = some (record { key = qwen; released = false });
  loaded = some qwen;
}

handle_msg-IsWellFormed_example :
    After counter (handle_msg counter host new_conn (session_init 2 0 "qwen" qwen_layers 2048))
handle_msg-IsWellFormed_example =
    handle_msg-IsWellFormed counter host new_conn (session_init 2 0 "qwen" qwen_layers 2048)
      (inl refl)

abbrev unit_shape : Shape
unit_shape = (1, 1, 8)

answered :
    (handle_msg counter host first_conn (forward_hidden 1 3 decode fp16 unit_shape [] none none)).2
    ≡ go_on
unfolding handle_msg forward check_forward run_layers find
answered = refl

forward-ordered_example :
    let o =
      handle_msg counter host first_conn (forward_hidden 1 3 decode fp16 unit_shape [] none none) in
    (first_conn.session_id ≡ some 1)
    × ((first_conn.last_seq ≡ 0) ⊎ (first_conn.last_seq < 3))
    × (o.0.1.last_seq ≡ 3)
    × ((out : Shape) × (bytes : List ℕ) × (o.1
          ≡ some (forward_hidden 1 3 decode fp16 out bytes none none)))
forward-ordered_example =
    forward-ordered counter host first_conn 1 3 decode fp16 unit_shape [] none none answered

abbrev more_control : ControlState
more_control = record {
  peer_id = "p";
  started_at = 0;
  slices = (qwen, record entry { active_chains = 2 }) ∷ [];
}

abbrev new_guard : ChainGuard
new_guard = record { key = qwen; released = false }

accepted : accept_chain host.control qwen ≡ some (more_control, new_guard)
unfolding accept_chain find put
accepted = refl

cached : find qwen host.cache ≡ some loaded_slice
unfolding find
cached = refl

session_resets_other_example :
    let o = handle_msg counter host new_conn (session_init 2 0 "qwen" qwen_layers 2048) in
    (o.2 ≡ go_on)
    × (o.1 ≡ some (session_ack 2 0))
    × (check_forward counter (o.0.0) first_conn 1 3
        ≡ ok (qwen, record loaded_slice { handle = [] }))
session_resets_other_example =
    session_resets_other counter host first_conn new_conn 1 2 0 2048 3 "qwen" qwen_layers
      more_control new_guard loaded_slice refl refl refl cached (omega arith) accepted

abbrev talk : List Msg
talk =
    session_init 2 0 "qwen" qwen_layers 2048
    ∷ forward_hidden 2 1 prefill fp16 unit_shape [] none none
    ∷ session_init 3 0 "qwen" qwen_layers 2048
    ∷ []

handle_connection-balances_example :
    (es : List Event) × All IsChainEvent es
    × (run (record { control = host.control; guards = qwen ∷ [] }) es ≡ record {
      control = (handle_connection counter host new_conn talk).0.control;
      guards = qwen ∷ [];
    })
handle_connection-balances_example = handle_connection-balances counter host talk (qwen ∷ [])

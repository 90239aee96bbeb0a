-- ===== src/Serve/Conns.antt =====
-- serve/conns/wsconn/ws_conns.go: the web socket connections. A context is a number, and a cancelled
-- one stays so. A melody session is a number too; what its writer is given is recorded in order, with
-- the session. The writer (serve/writer/ws) logs its own failures and reports none.
use tx_indexer.Base.{
  ℕ, suc, Bool, true, false, Option, none, some, List, [], ◌∷◌, ◌++◌, String, ◌==◌, if◌then◌else◌,
}
use tx_indexer.Base.Dict.{find, remove, insert}

pub record Conn : Type 0 where
  pub ctx : ℕ
  pub session : ℕ

-- `contexts` is how many contexts were made; `D` is what is written.
pub record Conns (D : Type 0) : Type 0 where
  pub conns : List (String × Conn)
  pub contexts : ℕ
  pub cancelled : List ℕ
  pub written : List (ℕ × D)

pub new_conns : {D : Type 0} → Conns D
new_conns = record { conns = []; contexts = 0; cancelled = []; written = [] }

abbrev pub is_cancelled : List ℕ → ℕ → Bool
is_cancelled [] ctx = false
is_cancelled (c ∷ cancelled) ctx =
    let rest = is_cancelled cancelled ctx in if c == ctx then true else rest

module _ {D : Type 0} where
  unfoldable pub add_ws_connection : String → ℕ → Conns D → Conns D
  add_ws_connection id session pw = record pw {
    conns = insert id (record { ctx = pw.contexts; session = session }) pw.conns;
    contexts = suc pw.contexts;
  }

  unfoldable pub get_ws_connection : String → Conns D → Option Conn
  get_ws_connection id pw = find id pw.conns

  -- The connection's context is cancelled, and it is deleted.
  unfoldable pub remove_ws_connection : String → Conns D → Conns D
  remove_ws_connection id pw = elim (find id pw.conns) [
    | none ↦ pw
    | some conn ↦ record pw { conns = remove id pw.conns; cancelled = conn.ctx ∷ pw.cancelled }
  ]

  -- Whether it succeeded.
  unfoldable pub write_data : Conn → D → Conns D → Bool × Conns D
  write_data conn message pw =
      if is_cancelled pw.cancelled conn.ctx
      then (false, pw)
      else (true, record pw { written = pw.written ++ (conn.session, message) ∷ [] })

-- ===== src/Dispatch/Store.antt =====
-- Guarded writes of one row while other processes write it too. `env k` is what the others do to
-- the row before this process's database call number `k`.
use afiliado_shopee.Prelude.{
  ℕ, ◌+◌, Bool, true, false, Option, nat_eq, option_eq, ◌==◌, if◌then◌else◌,
}
use afiliado_shopee.Dispatch.Row.{Dispatch, DispatchStatus}

pub record World : Type 0 where
  pub row : Dispatch
  pub calls : ℕ

abbrev pub Env : Type 0
Env = ℕ → Dispatch → Dispatch

-- `findUniqueOrThrow`: rows are not deleted.
unfoldable pub read_row : Env → World → Dispatch × World
read_row env w = let r = env w.calls w.row in (r, record { row = r; calls = w.calls + 1 })

-- The `where` and the `data` of an `updateMany` by id.
pub record Transition : Type 0 where
  pub from_status : DispatchStatus → Bool
  pub from_sent_at : Option ℕ
  pub assign : Dispatch → Dispatch

abbrev pub matches : Transition → Dispatch → Bool
matches t r = elim (t.from_status r.status) [ true ↦ r.sent_at == t.from_sent_at | false ↦ false ]

-- `updateMany`, and whether its `count` is 1.
unfoldable pub update_row : Env → Transition → World → Bool × World
update_row env t w =
    let r = env w.calls w.row in
    if matches t r
    then (true, record { row = t.assign r; calls = w.calls + 1 })
    else (false, record { row = r; calls = w.calls + 1 })

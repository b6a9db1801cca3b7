-- ===== src/Storage/Toy.antt =====
-- A database that meets SQLite's documents, as far as they are assumed: one table in memory, one
-- connection and one statement. While `busy` is set, COMMIT fails and leaves its transaction open.
use secure_ros2_gateway.Prelude.{
  ℕ, ◌≡◌, refl, inl, inr, ◌∙◌, ◌⊎◌, Bool, true, false, List, [], Option, none, some, ◌==◌, ==_iff,
  if◌then◌else◌, ◌&&◌, ◌≢◌, arith,
}
use secure_ros2_gateway.Prelude.Text.{Text, text_eq}
use secure_ros2_gateway.Storage.Sqlite.{
  SqliteApi, IsSqlite, Row, Table, Cell, text_cell, int_cell, begin_sql, commit_sql, rollback_sql,
  IsSetup, IsColumn, begin_on, commit_on, rollback_on, add_row,
}

pub record Memory : Type 0 where
  pub table : Table
  pub params : ℕ → Option Cell
  pub busy : Bool
  -- Whether the statement has been stepped since its last reset: then nothing is bound.
  pub stepped : Bool

abbrev pub empty_memory : Memory
empty_memory = record {
  table = record { committed = []; pending = none };
  params = λ _. none;
  busy = false;
  stepped = false;
}

abbrev row_from : Option Cell → Option Cell → Option Cell → Option Cell → Option Cell → Option Row
row_from (some (text_cell a)) (some (text_cell b)) (some (int_cell c)) (some (int_cell d))
      (some (text_cell e)) =
    some (record {
      robot_id = a;
      sensor_type = b;
      timestamp_ns = c;
      sequence_id = d;
      payload_json = e;
    })
row_from _ _ _ _ _ = none

abbrev pub insert_row : Option Row → Memory → Bool × Memory
insert_row none m = (false, record m { stepped = true })
insert_row (some row) m = (true, record m { table = add_row row m.table; stepped = true })

abbrev is_some : Option Cell → Bool
is_some none = false
is_some (some c) = true

-- No parameter is NULL.
abbrev filled : Memory → Bool
filled m =
    is_some (m.params 1)
    && is_some (m.params 2)
    && is_some (m.params 3)
    && is_some (m.params 4)
    && is_some (m.params 5)

abbrev bind_unless : Bool → ℕ → Cell → Memory → Memory
bind_unless true i c m = m
bind_unless false i c m = record m { params = λ j. if i == j then some c else m.params j }

abbrev bind : ℕ → Cell → Memory → Memory
bind i c m = bind_unless m.stepped i c m

abbrev pub begin_memory : Option (List Row) → Memory → Bool × Memory
begin_memory none m = (true, record m { table = begin_on m.table })
begin_memory (some rows) m = (false, m)

abbrev pub commit_memory : Bool → Memory → Bool × Memory
commit_memory true m = (false, m)
commit_memory false m = (true, record m { table = commit_on m.table })

abbrev pub exec_memory : Option (Unit {0}) → Text → Memory → Bool × Memory
exec_memory none sql m = (false, m)
exec_memory (some db) sql m =
    if text_eq sql begin_sql
    then begin_memory m.table.pending m
    else if text_eq sql commit_sql
    then commit_memory m.busy m
    else if text_eq sql rollback_sql
    then (true, record m { table = rollback_on m.table })
    else (true, m)

abbrev pub step_memory : Option (Unit {0}) → Memory → Bool × Memory
step_memory none m = (false, m)
step_memory (some st) m =
    insert_row
      (if filled m
        then row_from (m.params 1) (m.params 2) (m.params 3) (m.params 4) (m.params 5)
        else none)
      m

abbrev pub memory_api : SqliteApi
memory_api = record {
  World = Memory;
  Db = Unit {0};
  Stmt = Unit {0};
  create_parent_directories = λ path m. m;
  open_db = λ path m. ((true, some tt), record m { table = rollback_on m.table });
  exec = exec_memory;
  prepare = λ db sql m. ((true, some tt), m);
  reset = λ st m. record m { stepped = false };
  clear_bindings = λ st m. record m { params = λ _. none };
  bind_text = λ st i t. bind i (text_cell t);
  bind_int64 = λ st i n. bind i (int_cell n);
  step = step_memory;
  finalize = λ st m. m;
  close = λ db m. record m { table = rollback_on m.table };
}

pub exec_begin : (m : Memory) → exec_memory (some tt) begin_sql m ≡ begin_memory m.table.pending m
unfolding text_eq
exec_begin m = refl

pub exec_commit : (m : Memory) → exec_memory (some tt) commit_sql m ≡ commit_memory m.busy m
unfolding text_eq
exec_commit m = refl

pub exec_rollback :
    (m : Memory)
    → exec_memory (some tt) rollback_sql m ≡ (true, record m { table = rollback_on m.table })
unfolding text_eq
exec_rollback m = refl

pub exec_setup : (sql : Text) (m : Memory) → IsSetup sql → exec_memory (some tt) sql m ≡ (true, m)
unfolding text_eq
exec_setup sql m (inl e) = rw e refl
exec_setup sql m (inr (inl e)) = rw e refl
exec_setup sql m (inr (inr e)) = rw e refl

pub step_row :
    (m : Memory) (row : Row)
    → m.params 1 ≡ some (text_cell row.robot_id)
    → m.params 2 ≡ some (text_cell row.sensor_type)
    → m.params 3 ≡ some (int_cell row.timestamp_ns)
    → m.params 4 ≡ some (int_cell row.sequence_id)
    → m.params 5 ≡ some (text_cell row.payload_json)
    → step_memory (some tt) m ≡ (true, record m { table = add_row row m.table; stepped = true })
step_row m row a b c d e = rw (a, b, c, d, e) refl

pub insert_row_failed :
    (r : Option Row) (m : Memory) → (insert_row r m).0 ≡ false → (insert_row r m).1.table ≡ m.table
insert_row_failed none m h = refl
insert_row_failed (some row) m h = cc

pub begin_memory_done :
    (p : Option (List Row)) (m : Memory)
    → (begin_memory p m).0 ≡ true
    → (p ≡ none) × ((begin_memory p m).1.table ≡ begin_on m.table)
begin_memory_done none m h = (refl, refl)
begin_memory_done (some rows) m h = cc

pub begin_memory_failed :
    (p : Option (List Row)) (m : Memory)
    → (begin_memory p m).0 ≡ false
    → (begin_memory p m).1.table ≡ m.table
begin_memory_failed none m h = cc
begin_memory_failed (some rows) m h = refl

pub commit_memory_done :
    (b : Bool) (m : Memory)
    → (commit_memory b m).0 ≡ true
    → (commit_memory b m).1.table ≡ commit_on m.table
commit_memory_done true m h = cc
commit_memory_done false m h = refl

pub commit_memory_failed :
    (b : Bool) (m : Memory) → (commit_memory b m).0 ≡ false → (commit_memory b m).1.table ≡ m.table
commit_memory_failed true m h = refl
commit_memory_failed false m h = cc

pub bind_table : (b : Bool) (i : ℕ) (c : Cell) (m : Memory) → (bind_unless b i c m).table ≡ m.table
bind_table true i c m = refl
bind_table false i c m = refl

pub bind_stepped :
    (b : Bool) (i : ℕ) (c : Cell) (m : Memory) → (bind_unless b i c m).stepped ≡ m.stepped
bind_stepped true i c m = refl
bind_stepped false i c m = refl

pub bind_here : (i : ℕ) (c : Cell) (m : Memory) → m.stepped ≡ false → (bind i c m).params i ≡ some c
bind_here i c m r = rw r (simp (==_iff i i).1)

pub bind_there :
    (b : Bool) (i j : ℕ) (c : Cell) (m : Memory)
    → (i == j) ≡ false
    → (bind_unless b i c m).params j ≡ m.params j
bind_there true i j c m d = refl
bind_there false i j c m d = rw d refl

insert_row_done :
    (b : Bool) (r : Option Row) (m : Memory)
    → (insert_row (if b then r else none) m).0 ≡ true
    → b ≡ true
insert_row_done true r m h = refl
insert_row_done false r m h = cc

filled_at :
    (a b c d e : Option Cell)
    → (is_some a && is_some b && is_some c && is_some d && is_some e) ≡ true
    → (is_some a ≡ true)
      × (is_some b ≡ true)
      × (is_some c ≡ true)
      × (is_some d ≡ true)
      × (is_some e ≡ true)
filled_at a b c d e h = ground arith

column_cases : (i : ℕ) → IsColumn i → (i ≡ 1) ⊎ (i ≡ 2) ⊎ (i ≡ 3) ⊎ (i ≡ 4) ⊎ (i ≡ 5)
column_cases i (l, u) = ground arith

unset_none : (c : Option Cell) → is_some c ≡ true → c ≢ none
unset_none none h e = cc
unset_none (some c) h e = cc

pub step_filled :
    (m : Memory) (i : ℕ) → IsColumn i → (step_memory (some tt) m).0 ≡ true → m.params i ≢ none
step_filled m i c h e =
    let full = insert_row_done (filled m) _ m h in
    let (c1, c2, c3, c4, c5) =
      filled_at (m.params 1) (m.params 2) (m.params 3) (m.params 4) (m.params 5) full in
    elim (column_cases i c) [
      | inl q ↦ unset_none (m.params 1) c1 (rw q at e)
      | inr (inl q) ↦ unset_none (m.params 2) c2 (rw q at e)
      | inr (inr (inl q)) ↦ unset_none (m.params 3) c3 (rw q at e)
      | inr (inr (inr (inl q))) ↦ unset_none (m.params 4) c4 (rw q at e)
      | inr (inr (inr (inr q))) ↦ unset_none (m.params 5) c5 (rw q at e)
    ]

unfoldable pub memory-IsSqlite : IsSqlite memory_api
memory-IsSqlite = record {
  view = λ m. m.table;
  param = λ st m. m.params;
  Ready = λ db st m. Unit;
  Connected = λ db m. Unit;
  open_done = λ path m h. (tt, refl, tt);
  connected_exec = λ db m sql h s. tt;
  prepare_done = λ db m h e. (tt, refl, tt);
  open_quiet = λ path m h. refl;
  setup_quiet = λ db m sql c h q. rw (exec_setup sql m h) q;
  view_prepare = λ db m h. refl;
  ready_exec = λ db st m sql h t. tt;
  ready_step = λ db st m h. tt;
  ready_reset = λ db st m h. tt;
  ready_clear = λ db st m h. tt;
  ready_bind_text = λ db st m i t h. tt;
  ready_bind_int64 = λ db st m i n h. tt;
  view_reset = λ st m. refl;
  view_clear = λ st m. refl;
  Reset = λ st m. m.stepped ≡ false;
  view_bind_text = λ st m i t. bind_table m.stepped i (text_cell t) m;
  view_bind_int64 = λ st m i n. bind_table m.stepped i (int_cell n) m;
  reset_done = λ db st m r. refl;
  reset_clear = λ st m r. r;
  reset_bind_text = λ st m i t r. bind_stepped m.stepped i (text_cell t) m ∙ r;
  reset_bind_int64 = λ st m i n r. bind_stepped m.stepped i (int_cell n) m ∙ r;
  param_clear = λ st m j. refl;
  param_bind_text = λ st m i t r e. inl (bind_here i (text_cell t) m r);
  param_bind_int64 = λ st m i n r e. inl (bind_here i (int_cell n) m r);
  kept_bind_text = λ st m i j t d. bind_there m.stepped i j (text_cell t) m d;
  kept_bind_int64 = λ st m i j n d. bind_there m.stepped i j (int_cell n) m d;
  not_null = λ db st m i r c h. step_filled m i c h;
  step_done = λ db st m row r a b c d e h. rw (step_row m row a b c d e);
  step_failed = λ db st m r h. inl (rw (insert_row_failed _ m h));
  begin_done =
      λ db st m r h. rw exec_begin (begin_memory_done m.table.pending m (rw exec_begin at h));
  begin_failed =
      λ db st m r h. rw exec_begin (begin_memory_failed m.table.pending m (rw exec_begin at h));
  commit_done = λ db st m r h. rw exec_commit (commit_memory_done m.busy m (rw exec_commit at h));
  commit_failed =
      λ db st m r h. inl (rw exec_commit (commit_memory_failed m.busy m (rw exec_commit at h)));
  rolled_back = λ db st m r. rw exec_rollback;
  closed = λ db st m r. refl;
}

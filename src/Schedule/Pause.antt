-- ===== src/Schedule/Pause.antt =====
-- Pausing and resuming the automation: `setPaused` of
-- apps/api/src/commercial-automation-policy-service.ts up to its status, and of
-- `PrismaCommercialAutomationSettingsRepository` in apps/api/src/prisma-repositories.ts.
use afiliado_shopee.Prelude.{
  ℕ, ◌+◌, Bool, true, false, ◌&&◌, not, ◌≡◌, Option, none, some, Text, codes, text_eq, nat_eq, ◌==◌,
  Result, ok, err, is_some, arith, resume_confirmation_required, resume_cas_required,
  resume_conflict, if◌then◌else◌, option_eq,
}
use afiliado_shopee.Schedule.{Settings}

-- The row, and what other processes do to it before this process's database call number `k`.
pub record World : Type 0 where
  pub settings : Settings
  pub calls : ℕ

abbrev pub Env : Type 0
Env = ℕ → Settings → Settings

-- `getOrCreate` of a row that is there, and `get`: rows are not deleted.
unfoldable pub read_settings : Env → World → Settings × World
read_settings env w =
    let s = env w.calls w.settings in (s, record { settings = s; calls = w.calls + 1 })

abbrev same_flag : Bool → Bool → Bool
same_flag true b = b
same_flag false b = not b

abbrev pub resume_confirmation : Text
resume_confirmation = codes "RETOMAR_AUTOMACAO_COMERCIAL"

-- `stamp` is the `updatedAt` that the database client writes with any change.
module _ (env : Env) (stamp now : ℕ) where
  -- The conditional update of a resume, and whether its `count` is 1.
  unfoldable pub resume_row : ℕ → World → Bool × World
  resume_row expected w =
      let s = env w.calls w.settings in
      if s.paused && (s.updated_at == expected)
      then (
        true,
        record {
          settings = record s { paused = false; resumed_at = some now; updated_at = stamp };
          calls = w.calls + 1;
        },
      )
      else (false, record { settings = s; calls = w.calls + 1 })

  unfoldable pub pause_row : World → Settings × World
  pause_row w =
      let s = record (env w.calls w.settings) {
        paused = true;
        paused_at = some now;
        updated_at = stamp;
      } in
      (s, record { settings = s; calls = w.calls + 1 })

  unfoldable pub answer_resume : Bool × World → Result Settings × World
  unfolding read_settings
  answer_resume (true, w) = let (s, w') = read_settings env w in (ok s, w')
  answer_resume (false, w) = (err resume_conflict, w)

  unfoldable pub try_resume : Option ℕ → World → Result Settings × World
  unfolding resume_row answer_resume
  try_resume none w = (err resume_cas_required, w)
  try_resume (some expected) w = answer_resume (resume_row expected w)

  -- `setPaused` of the repository.
  unfoldable pub set_paused : Bool → Option ℕ → World → Result Settings × World
  unfolding read_settings try_resume pause_row
  set_paused paused expected w =
      let (current, w') = read_settings env w in
      if same_flag current.paused paused
      then (ok current, w')
      else if not paused
      then try_resume expected w'
      else (let (s, w'') = pause_row w' in (ok s, w''))

  -- `setPaused` of the service, by whether the confirmation is the expected one.
  unfoldable pub confirmed_set_paused : Bool → Bool → Option ℕ → World → Result Settings × World
  unfolding set_paused
  confirmed_set_paused is_phrase paused expected w =
      let stored = set_paused paused (if paused then none else expected) w in
      if not paused && not is_phrase
      then (err resume_confirmation_required, w)
      else if not paused && not (is_some expected)
      then (err resume_cas_required, w)
      else stored

  -- `expected` is none where the text is no date.
  unfoldable pub service_set_paused :
      Bool → Option Text → Option ℕ → World → Result Settings × World
  unfolding confirmed_set_paused
  service_set_paused paused confirmation expected w =
      confirmed_set_paused (confirmation == some resume_confirmation) paused expected w

resumes :
    (env : Env) (stamp now : ℕ) (is_phrase : Bool) (expected : Option ℕ) (w : World) (s : Settings)
    → (env w.calls w.settings).paused ≡ true
    → (confirmed_set_paused env stamp now is_phrase false expected w).0 ≡ ok s
    → (is_phrase ≡ true)
      × ((env (w.calls + 1) (env w.calls w.settings)).paused ≡ true)
      × (expected ≡ some (env (w.calls + 1) (env w.calls w.settings)).updated_at)
unfolding confirmed_set_paused
resumes env stamp now is_phrase expected w s h k = (ground arith, ground arith, ground arith)

pub service_set_paused-resumes :
    (env : Env) (stamp now : ℕ) (confirmation : Option Text) (expected : Option ℕ) (w : World)
    (s : Settings)
    → (env w.calls w.settings).paused ≡ true
    → (service_set_paused env stamp now false confirmation expected w).0 ≡ ok s
    → let before = env (w.calls + 1) (env w.calls w.settings) in
      (confirmation ≡ some resume_confirmation)
      × (before.paused ≡ true)
      × (expected ≡ some before.updated_at)
unfolding service_set_paused
service_set_paused-resumes env stamp now confirmation expected w s h k =
    let (phrase, paused, seen) = resumes env stamp now _ expected w s h k in
    ((option_eq.beq_iff confirmation (some resume_confirmation)).0 phrase, paused, seen)

pauses :
    (env : Env) (stamp now : ℕ) (is_phrase : Bool) (expected : Option ℕ) (w : World)
    → let (answer, w') = confirmed_set_paused env stamp now is_phrase true expected w in
      (answer ≡ ok w'.settings) × (w'.settings.paused ≡ true)
unfolding confirmed_set_paused
pauses env stamp now is_phrase expected w = (ground arith, ground arith)

-- A pause is always stored and answered with paused settings, which the row then has, whatever the
-- client sends with it and whatever the row was.
pub service_set_paused-pauses :
    (env : Env) (stamp now : ℕ) (confirmation : Option Text) (expected : Option ℕ) (w : World)
    → let (answer, w') = service_set_paused env stamp now true confirmation expected w in
      (answer ≡ ok w'.settings) × (w'.settings.paused ≡ true)
unfolding service_set_paused
service_set_paused-pauses env stamp now confirmation expected w =
    pauses env stamp now (confirmation == some resume_confirmation) expected w

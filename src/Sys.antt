-- ===== src/Sys.antt =====
-- The calls that the bridge makes of the lib60870 C library (`lib60870::sys`), of its server wrapper,
-- and of the input's acknowledgement. The library is not modelled: a history records each call with
-- its arguments and its result, the latest call first, and `Answers`, a parameter of the model, is
-- what the library answers after each history.
use iec104bridge.Base.{ℕ, Bool, Option, List, ◌∷◌}
use iec104bridge.Base.Int.{ℤ}
use iec104bridge.Platform.{Platform}

-- The two named values of a double point.
pub data DoublePointValue : Type 0 where
  point_on point_off : DoublePointValue

-- The arguments of the `_create` functions of information objects. Addresses are `i32`.
pub data InfoObject (p : Platform) : Type 0 where
  single : ℤ → Bool → p.Quality → InfoObject p
  short : ℤ → p.F32 → p.Quality → InfoObject p
  scaled_value : ℤ → ℤ → p.Quality → InfoObject p
  single_time : ℤ → Bool → p.Quality → p.Timestamp → InfoObject p
  double_time : ℤ → DoublePointValue → p.Quality → p.Timestamp → InfoObject p
  scaled_time : ℤ → ℤ → p.Quality → p.Timestamp → InfoObject p
  short_time : ℤ → p.F32 → p.Quality → p.Timestamp → InfoObject p
  normalized_time : ℤ → p.F32 → p.Quality → p.Timestamp → InfoObject p

-- The arguments of `CS101_ASDU_create` that vary: the cause and the common address. The others are
-- constants of the source: no sequence, originator 0, no test, not negative.
pub record Header (p : Platform) : Type 0 where
  pub cause : p.Cause
  pub common_address : ℤ

-- Pointers are numbers, and null is `none`.
pub data SysCall (p : Platform) : Type 0 where
  object_created : InfoObject p → Option ℕ → SysCall p
  object_destroyed : ℕ → SysCall p
  asdu_created : Header p → Option ℕ → SysCall p
  object_added : ℕ → ℕ → SysCall p
  asdu_destroyed : ℕ → SysCall p
  asdu_enqueued : p.ServerPtr → ℕ → SysCall p
  asdu_sent : p.Connection → ℕ → Bool → SysCall p
  act_con_sent : p.Connection → Bool → Bool → SysCall p
  act_term_sent : p.Connection → Bool → SysCall p
  server_single : p.ServerPtr → p.Cause → ℕ → ℕ → Bool → p.Quality → SysCall p
  server_float : p.ServerPtr → p.Cause → ℕ → ℕ → p.F32 → p.Quality → SysCall p
  server_scaled : p.ServerPtr → p.Cause → ℕ → ℕ → ℤ → p.Quality → SysCall p
  acknowledged : Bool → SysCall p

abbrev pub History : Platform → Type 0
History p = List (SysCall p)

pub record Answers (p : Platform) : Type 0 where
  pub new_object : History p → Option ℕ
  pub new_asdu : History p → Option ℕ
  pub sends : History p → Bool
  pub confirms : History p → Bool
  pub terminates : History p → Bool
  pub acknowledges : History p → Bool

-- An action on the history, with a result.
abbrev pub Act : Platform → Type 0 → Type 0
Act p A = History p → A × History p

infixl 5 ◌>>=◌ ◌>>◌
abbrev pub ◌>>=◌ : {p : Platform} {A B : Type 0} → Act p A → (A → Act p B) → Act p B
◌>>=◌ m f h = let (a, h') = m h in f a h'

abbrev pub ◌>>◌ : {p : Platform} {A B : Type 0} → Act p A → Act p B → Act p B
m >> k = m >>= λ _. k

abbrev pub pure : {p : Platform} {A : Type 0} → A → Act p A
pure a h = (a, h)

abbrev pub record_call : {p : Platform} → SysCall p → Act p (Unit {0})
record_call c h = (tt, c ∷ h)

module _ {p : Platform} (answers : Answers p) where
  unfoldable pub create_object : InfoObject p → Act p (Option ℕ)
  create_object o h = let r = answers.new_object h in (r, object_created o r ∷ h)

  unfoldable pub create_asdu : Header p → Act p (Option ℕ)
  create_asdu d h = let r = answers.new_asdu h in (r, asdu_created d r ∷ h)

  unfoldable pub send_asdu : p.Connection → ℕ → Act p Bool
  send_asdu conn a h = let r = answers.sends h in (r, asdu_sent conn a r ∷ h)

  unfoldable pub send_act_con : p.Connection → Bool → Act p Bool
  send_act_con conn negative h = let r = answers.confirms h in (r, act_con_sent conn negative r ∷ h)

  unfoldable pub send_act_term : p.Connection → Act p Bool
  send_act_term conn h = let r = answers.terminates h in (r, act_term_sent conn r ∷ h)

  unfoldable pub acknowledge : Act p Bool
  acknowledge h = let r = answers.acknowledges h in (r, acknowledged r ∷ h)

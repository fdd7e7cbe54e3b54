-- ===== src/Tools/Disk.antt =====
-- What the tools call of Python's `pathlib`, `shutil` and `re`. `W` is the outside world with its
-- files; a path is its text. A change of the world may raise, and keeps what it has done until then.
use omni_forge.Base.{Bool, Option, String, List, ℕ}

-- An exception: an `OSError`, which the tools catch, or another one.
pub data Fault : Type 0 where
  os_error : String → Fault
  other : String → Fault

pub data Reading {ℓ} (A : Type ℓ) : Type ℓ where
  got : A → Reading A
  fault : Fault → Reading A

-- `re.subn`: the new text and the number of matches, or a `re.error`.
pub data Substitution : Type 0 where
  substituted : String → ℕ → Substitution
  regex_error : String → Substitution

pub record Disk (W : Type 0) : Type 1 where
  pub is_alpha : ℕ → Bool
  pub number : ℕ → String
  pub text_before : String → String → Bool
  pub path_before : String → String → Bool
  pub is_absolute : String → Bool
  pub join : String → String → String
  pub resolved : W → String → String
  pub is_relative_to : String → String → Bool
  pub name : String → String
  pub parts : String → List String
  pub parent : String → String
  pub exists : W → String → Bool
  pub is_file : W → String → Bool
  pub is_dir : W → String → Bool
  pub size : W → String → ℕ
  pub entries : W → String → Reading (List String)
  pub read_text : W → String → Reading String
  pub make_dir : String → W → Option Fault × W
  pub write_text : String → String → W → Option Fault × W
  pub append_text : String → String → W → Option Fault × W
  pub unlink : String → W → Option Fault × W
  pub remove_tree : String → W → Option Fault × W
  pub move : String → String → W → Option Fault × W
  pub copy : String → String → W → Option Fault × W
  pub rename : String → String → W → Option Fault × W
  pub substitute : String → String → String → Substitution

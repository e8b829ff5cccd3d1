-- ===== src/Config.antt =====
-- config/config.go: where the file is looked for, and the settings that are taken from it. The file
-- system and the TOML library are parameters; the queue's part of the file is in Mq/Config.
use longcom.Base.{
  ℕ, zero, suc, ◌<◌, ◌≡◌, refl, arith, Bool, true, false, ◌++◌, Option, none, some, Text, bytes,
  Bool-cases, inl, inr, if◌then◌else◌,
}
use longcom.Base.Int.{ℤ, pos, leb_ℤ, ◌<ℤ◌}
use longcom.Base.Run.{Run, ok, panic}

pub record Config : Type 0 where
  pub env : Text
  pub max_conn : ℤ
  pub jwt_secret : Text
  pub tcp_address : Text
  pub push_by_topic_goroutine_pool_size : ℤ

-- The variables of the package.
pub record Settings : Type 0 where
  pub server_config : Config
  pub env : Text
  pub jwt_secret : Text
  pub max_conn : ℤ

abbrev pub conf_file : Text
conf_file = bytes "./config/config.toml"

abbrev pub parent : Text → Text
parent file = bytes "../" ++ file

-- The loop of `init`, in the rounds that it has left.
unfoldable pub find_config : (exists : Text → Bool) → ℕ → Text → Text
find_config exists zero file = file
find_config exists (suc rounds) file =
    let rest = find_config exists rounds (parent file) in if exists file then file else rest

unfoldable pub settings_of : Config → Settings
settings_of c = record {
  server_config = c;
  env = c.env;
  jwt_secret = c.jwt_secret;
  max_conn = if leb_ℤ c.max_conn (pos 0) then pos 10000 else c.max_conn;
}

abbrev decoded : Option Config → Run Settings
decoded none = panic
decoded (some c) = ok (settings_of c)

-- `init`; a file that cannot be decoded stops the process.
unfoldable pub init : (exists : Text → Bool) (decode_file : Text → Option Config) → Run Settings
unfolding find_config settings_of
init exists decode_file = decoded (decode_file (find_config exists 10 conf_file))

-- The path from so many directories up.
abbrev pub up : ℕ → Text → Text
up zero file = file
up (suc n) file = up n (parent file)

nearest :
    (exists : Text → Bool) (rounds n : ℕ) (file : Text)
    → n < rounds
    → exists (up n file) ≡ true
    → ((m : ℕ) → m < n → exists (up m file) ≡ false)
    → find_config exists rounds file ≡ up n file
unfolding find_config
nearest exists zero n file below here before = absurd (omega arith)
nearest exists (suc rounds) zero file below here before = rw here refl
nearest exists (suc rounds) (suc n) file below here before = rw (before 0 (omega arith)) (
    nearest exists rounds n (parent file) (omega (arith, below)) here
      (λ m less. before (suc m) (omega (arith, less))))

-- The settings are read from the nearest file of ten directories, and their limit of connections is
-- positive.
pub init-nearest :
    (exists : Text → Bool) (decode_file : Text → Option Config) (n : ℕ) (c : Config)
    → n < 10
    → exists (up n conf_file) ≡ true
    → ((m : ℕ) → m < n → exists (up m conf_file) ≡ false)
    → decode_file (up n conf_file) ≡ some c
    → (init exists decode_file ≡ ok (settings_of c)) × (pos 0 <ℤ (settings_of c).max_conn)
unfolding init settings_of
init-nearest exists decode_file n c below here before is = (
  rw (nearest exists 10 n conf_file below here before, is) refl,
  elim (Bool-cases (leb_ℤ c.max_conn (pos 0))) [
    | inl e ↦ rw e (omega arith)
    | inr e ↦ rw e (ground (arith, e))
  ],
)

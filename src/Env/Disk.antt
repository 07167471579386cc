-- ===== src/Env/Disk.antt =====
-- `env_save` and `env_load` of env/env.c: the registry's text in the file AIOS.ENV.
use new_attempt.Base.{
  Bool, List, Option, [], arith, length, length-take, none, refl, some, suc, take, zero, ℕ, ◌≡◌,
}
use new_attempt.CString.{codes, CharPtr}
use new_attempt.Env.{load_loop, pos, negsuc, env_text, ℤ, EnvTable}
use new_attempt.Fat12.Volume.{fat12_read_file, fat12_write_file, Volume}
use new_attempt.Env.Text.{load_loop_total}

abbrev env_file : CharPtr
env_file = some (codes "AIOS.ENV")

abbrev bytes_of : CharPtr → List ℕ
bytes_of none = []
bytes_of (some buf) = buf

-- What `env_load` does with the result `n` of the read and the buffer: the parser has a round for
-- every byte and one more, which is enough for each text.
unfoldable pub parse_file {ℓ} :
    {S : Type ℓ} → ℤ → CharPtr → EnvTable → S → Option (ℤ × EnvTable × S)
parse_file (negsuc k) buf t st = some (negsuc 0, t, st)
parse_file (pos zero) buf t st = some (negsuc 0, t, st)
parse_file (pos (suc n)) buf t st = elim (load_loop (suc (suc n)) (take (suc n) (bytes_of buf)) t) [
  | none ↦ none
  | some u ↦ some (pos 0, u, st)
]

parse_file_total :
    {S : Type 0} (n : ℤ) (buf : CharPtr) (t : EnvTable) (st : S)
    → (r : ℤ × EnvTable × S) × (parse_file n buf t st ≡ some r)
unfolding parse_file
parse_file_total (negsuc k) buf t st = ((negsuc 0, t, st), refl)
parse_file_total (pos zero) buf t st = ((negsuc 0, t, st), refl)
parse_file_total (pos (suc n)) buf t st =
    let (u, e) =
      load_loop_total (suc (suc n)) (take (suc n) (bytes_of buf)) t
        (omega (arith, length-take (suc n) (bytes_of buf))) in
    ((pos 0, u, st), rw (e, parse_file) refl)

module _ {D : Type 0} (read : D → ℕ → List ℕ → Bool × List ℕ × D)
    (write : D → ℕ → List ℕ → Bool × D) where
  unfoldable pub env_save : EnvTable → Volume × D → ℤ × (Volume × D)
  env_save t st = fat12_write_file read write env_file (some (env_text t)) (length (env_text t)) st

  -- `buf` is the static buffer.
  unfoldable pub env_load : List ℕ → EnvTable → Volume × D → Option (ℤ × EnvTable × (Volume × D))
  unfolding parse_file
  env_load buf t st =
      let r = fat12_read_file read write env_file (some buf) 511 st in parse_file r.0 r.1 t r.2

  -- `env_load` ends with a result, whatever the disk delivers.
  pub env_load_total :
      (buf : List ℕ) (t : EnvTable) (st : Volume × D)
      → (r : ℤ × EnvTable × (Volume × D)) × (env_load buf t st ≡ some r)
  unfolding env_load
  env_load_total buf t st =
      let r = fat12_read_file read write env_file (some buf) 511 st in
      parse_file_total r.0 r.1 t r.2

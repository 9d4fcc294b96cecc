-- ===== src/Harden/Disk.antt =====
-- Files in memory, in which nothing fails but a copy of a file that is not there.
use secureops.Prelude.{
  ◌≡◌, ◌≢◌, refl, ap, ◌∙◌, Bool, true, false, ◌&&◌, Option, none, some, [], ◌∷◌, String, str_eq,
  str_eq_iff, str_eq_refl, ok, err, arith, if◌then◌else◌, Bool-cases, inl, inr,
}
use secureops.Harden.Files.{PathBuf, IoError, Io, Files, IsSound}

abbrev pub path_eq : PathBuf → PathBuf → Bool
path_eq [] [] = true
path_eq (x ∷ xs) (y ∷ ys) = str_eq x y && path_eq xs ys
path_eq _ _ = false

path_eq_refl : (p : PathBuf) → path_eq p p ≡ true
path_eq_refl [] = refl
path_eq_refl (x ∷ xs) = rw (str_eq_refl x) (path_eq_refl xs)

both : (a b : Bool) → a && b ≡ true → (a ≡ true) × (b ≡ true)
both true true e = (refl, refl)
both true false e = ground arith
both false b e = ground arith

path_eq-same : (p q : PathBuf) → path_eq p q ≡ true → p ≡ q
path_eq-same [] [] e = refl
path_eq-same [] (y ∷ ys) e = ground arith
path_eq-same (x ∷ xs) [] e = ground arith
path_eq-same (x ∷ xs) (y ∷ ys) e =
    let (head, rest) = both (str_eq x y) (path_eq xs ys) e in
    ap (λ a. a ∷ xs) ((str_eq_iff x y).0 head) ∙ ap (λ t. y ∷ t) (path_eq-same xs ys rest)

path_eq-other : (p q : PathBuf) → p ≢ q → path_eq p q ≡ false
path_eq-other p q n = elim (Bool-cases (path_eq p q)) [
  | inl y ↦ absurd (n (path_eq-same p q y))
  | inr e ↦ e
]

abbrev pub Disk : Type 0
Disk = PathBuf → Option String

abbrev put : PathBuf → String → Disk → Disk
put p text s = λ q. if path_eq q p then some text else s q

abbrev answered : PathBuf → Option String → Disk → Io Disk
answered dst none s = (err (record { not_found = true; text = "No such file or directory" }), s)
answered dst (some text) s = (ok tt, put dst text s)

abbrev pub disk : Files
disk = record {
  State = Disk;
  copy = λ src dst s. answered dst (s src) s;
  write = λ p text s. (ok tt, put p text s);
  create_dir_all = λ p s. (ok tt, s);
  read_to_string = λ p s. s p;
  read_dir = λ p s. some ("2026-06-12T00-00-00Z" ∷ []);
  is_there = λ p s. true;
}

answered-read :
    (dst : PathBuf) (o : Option String) (s : Disk)
    → (answered dst o s).0 ≡ ok tt
    → (answered dst o s).1 dst ≡ o
answered-read dst none s e = ground arith
answered-read dst (some text) s e = rw (path_eq_refl dst) refl

answered-missing :
    (dst : PathBuf) (o : Option String) (s : Disk) (e : IoError)
    → (answered dst o s).0 ≡ err e
    → o ≡ none
answered-missing dst none s e h = refl
answered-missing dst (some text) s e h = ground arith

answered-keeps :
    (dst : PathBuf) (o : Option String) (p : PathBuf) (s : Disk)
    → p ≢ dst
    → (answered dst o s).1 p ≡ s p
answered-keeps dst none p s n = refl
answered-keeps dst (some text) p s n = rw (path_eq-other p dst n) refl

pub disk-IsSound : IsSound disk
disk-IsSound = record {
  copied = λ src dst s e. answered-read dst (s src) s e;
  missing = λ src dst s e h lost. answered-missing dst (s src) s e h;
  written = λ p text s e. rw (path_eq_refl p) refl;
  copy_keeps = λ src dst p s n. answered-keeps dst (s src) p s n;
  write_keeps = λ q text p s n. rw (path_eq-other p q n) refl;
  create_keeps = λ q p s. refl;
}

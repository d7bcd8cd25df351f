-- ===== src/Uploads/Filenames.antt =====
-- dashboard/app/services/device_backup_crypto.py: the characters of the names of stored files.
use opnsense_hub.Base.{
  ℕ, ◌≡◌, refl, inl, inr, Bool, true, false, not, [], ◌∷◌, ◌++◌, ◌==◌, nat_eq, text_eq, arith, All,
  any, Bool-cases, Text, codes, drop_leading, rstrip, if◌then◌else◌,
}
use mathlib.Core.List.{reverse, reverse_aux}
use opnsense_hub.Uploads.{is_safe, sub_unsafe, device_backup_filename}
use opnsense_hub.Uploads.Envelopes.{plaintext_format}

abbrev pub IsSafe : Text → Type 0
IsSafe = All (λ c. is_safe c ≡ true)

IsSafe-append : (s t : Text) → IsSafe s → IsSafe t → IsSafe (s ++ t)
IsSafe-append [] t h k = k
IsSafe-append (c ∷ s) t h k = (h.0, IsSafe-append s t h.1 k)

IsSafe-reverse_aux : (s t : Text) → IsSafe s → IsSafe t → IsSafe (reverse_aux s t)
IsSafe-reverse_aux [] t h k = k
IsSafe-reverse_aux (c ∷ s) t h k = IsSafe-reverse_aux s (c ∷ t) h.1 (h.0, k)

IsSafe-drop_leading : (c : ℕ) (s : Text) → IsSafe s → IsSafe (drop_leading c s)
unfolding drop_leading
IsSafe-drop_leading c [] h = tt
IsSafe-drop_leading c (d ∷ s) h = elim (Bool-cases (d == c)) [
  | inl e ↦ rw e (IsSafe-drop_leading c s h.1)
  | inr e ↦ rw e h
]

IsSafe-rstrip : (c : ℕ) (s : Text) → IsSafe s → IsSafe (rstrip c s)
unfolding rstrip
IsSafe-rstrip c s h =
    IsSafe-reverse_aux (drop_leading c (reverse s)) []
      (IsSafe-drop_leading c (reverse s) (IsSafe-reverse_aux s [] h tt)) tt

sub_unsafe-IsSafe : (in_run : Bool) (s : Text) → IsSafe (sub_unsafe in_run s)
unfolding sub_unsafe is_safe
sub_unsafe-IsSafe in_run [] = tt
sub_unsafe-IsSafe in_run (c ∷ s) = elim (Bool-cases (is_safe c)) [
  | inl e ↦ rw e (e, sub_unsafe-IsSafe false s)
  | inr e ↦ elim (Bool-cases in_run) [
    | inl f ↦ rw (e, f) (sub_unsafe-IsSafe true s)
    | inr f ↦ rw (e, f) (refl, sub_unsafe-IsSafe true s)
  ]
]

IsSafe-if : (b : Bool) (s t : Text) → IsSafe s → IsSafe t → IsSafe (if b then s else t)
IsSafe-if true s t h k = h
IsSafe-if false s t h k = k

IsSafe-of_any : (s : Text) → any (λ c. not (is_safe c)) s ≡ false → IsSafe s
unfolding any
IsSafe-of_any [] h = tt
IsSafe-of_any (c ∷ s) h = (ground (arith, h), IsSafe-of_any s (ground (arith, h)))

-- Whatever a firewall calls itself, the name of its file has only letters, digits, dots, underscores and
-- hyphens, so no path in it, if the time is written with such characters.
pub device_backup_filename-IsSafe :
    (hostname timestamp backup_format : Text)
    → IsSafe timestamp
    → IsSafe (device_backup_filename hostname timestamp backup_format)
unfolding device_backup_filename is_safe any
device_backup_filename-IsSafe hostname timestamp backup_format h =
    let name = rstrip b'-' (drop_leading b'-' (sub_unsafe false hostname)) in
    let extension = if backup_format == plaintext_format then codes ".xml" else codes ".opnenc" in
    let safe : IsSafe name =
      IsSafe-rstrip b'-' _ (IsSafe-drop_leading b'-' _ (sub_unsafe-IsSafe false hostname)) in
    IsSafe-append
      (((if name == [] then codes "firewall" else name) ++ codes "-backup-") ++ timestamp) extension
      (IsSafe-append ((if name == [] then codes "firewall" else name) ++ codes "-backup-") timestamp
        (IsSafe-append (if name == [] then codes "firewall" else name) (codes "-backup-")
          (IsSafe-if (name == []) (codes "firewall") name (IsSafe-of_any (codes "firewall") refl)
            safe)
          (IsSafe-of_any (codes "-backup-") refl))
        h)
      (IsSafe-if (backup_format == plaintext_format) (codes ".xml") (codes ".opnenc")
        (IsSafe-of_any (codes ".xml") refl) (IsSafe-of_any (codes ".opnenc") refl))

-- ===== src/LoginApi/Described.antt =====
-- The text that describes the machine that asks.
use Prim.Native.String.{String}
use swift_proof.Prelude.{
  Bool, Bool-cases, arith, if◌then◌else◌, inl, inr, leb, not_both, refl, suc, text_eq, zero, ℕ,
  ◌==◌, ◌≡◌, ◌≢◌, ◌≤◌,
}
use swift_proof.UserCode.{first, text_length}
use swift_proof.Words.{fields, spaced}
use swift_proof.LoginApi.{device_client, max_device_client, printable}

described_test :
    (device_client (λ c. leb 32 c) "  my  host " ≡ "my host")
    × (device_client (λ c. leb 32 c) " " ≡ "Probe CLI")
unfolding device_client
described_test = (refl, refl)

length-first : (n : ℕ) (s : String) → text_length (first n s) ≤ n
unfolding first text_length
length-first zero s = omega arith
length-first (suc n) String.[] = omega arith
length-first (suc n) (String.◌∷◌ c s) = omega (arith, length-first n s)

-- Whatever the client sends, the text that is shown is not empty and has at most 60 characters.
pub device_client-bounds :
    (is_print : ℕ → Bool) (raw : String)
    → (text_length (device_client is_print raw) ≤ max_device_client)
      × (device_client is_print raw ≢ "")
unfolding device_client text_length
device_client-bounds is_print raw =
    shown (first max_device_client (spaced (fields (printable is_print raw))))
      (length-first max_device_client (spaced (fields (printable is_print raw))))
  where
    shown :
        (s : String)
        → text_length s ≤ 60
        → (text_length (if s == "" then "Probe CLI" else s) ≤ 60)
          × ((if s == "" then "Probe CLI" else s) ≢ "")
    shown s h = elim (Bool-cases (s == "")) [
      | inl none_left ↦ rw none_left (omega arith, λ e. cc)
      | inr some_left ↦ rw some_left (h, λ e. not_both (s == "") some_left ((text_eq s "").1 e))
    ]

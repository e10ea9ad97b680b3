-- ===== src/Adapter/Laws.antt =====
-- Laws of the results of a translation and of the fields that it writes.
use prismux.Prelude.{
  ◌≡◌, refl, false, Str, text_eq, ◌==◌, eq_refl, lookup-erase, none, some, erase, if◌then◌else◌,
}
use prismux.Json.{Value, Fields, entries, entries-of_entries, get, put, drop_key, get-put}
use prismux.Adapter.Checked.{Checked, good, refused, raised, ◌>>=◌}

pub bind-good {ℓ κ} :
    {A : Type ℓ} {B : Type κ} (m : Checked A) (f : A → Checked B) (b : B)
    → (m >>= f) ≡ good b
    → (a : A) × (m ≡ good a) × (f a ≡ good b)
bind-good (good a) f b h = (a, refl, h)
bind-good {B = B} (refused e) f b h =
    absurd (let n : ◌≡◌ {A = Checked B} (refused e) (good b) = h in cc n)
bind-good {B = B} raised f b h = absurd (let n : ◌≡◌ {A = Checked B} raised (good b) = h in cc n)

pub good_injective {ℓ} : {A : Type ℓ} (a b : A) → good a ≡ good b → a ≡ b
good_injective a b h = cc h

pub get-drop_key :
    (j k : Str) (fs : Fields) → get j (drop_key k fs) ≡ (if k == j then none else get j fs)
unfolding get drop_key
get-drop_key j k fs = rw (entries-of_entries (erase k (entries fs))) (lookup-erase j k (entries fs))

pub get-put_other :
    (j k : Str) (v : Value) (fs : Fields) → (k == j) ≡ false → get j (put k v fs) ≡ get j fs
get-put_other j k v fs h = rw (get-put j k v fs, h) refl

pub get-put_same : (k : Str) (v : Value) (fs : Fields) → get k (put k v fs) ≡ some v
get-put_same k v fs = rw (get-put k k v fs, eq_refl k) refl

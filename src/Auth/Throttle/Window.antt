-- ===== src/Auth/Throttle/Window.antt =====
-- `LoginThrottle` of app/auth.py against the history of logins.
use prismux.Prelude.{
  ℕ, suc, ◌+◌, ◌≤◌, ◌<◌, ◌≡◌, refl, ap, ◌∙◌, inl, inr, true, ◌&&◌, Bool-cases, List, [], ◌∷◌, ◌++◌,
  length, All, lookup-insert, lookup-erase, Str, text_eq, ◌==◌, eq_iff, eq_refl, leb, ltb, arith,
  if◌then◌else◌,
}
use prismux.Auth.Throttle.{
  LoginThrottle, events_of, drop_expired, set_events, trim, allowed, failure, success,
}

-- A call with its time; of a history the newest call comes first.
pub data Call : Type 0 where
  asked failed : Str → ℕ → Call
  succeeded : Str → Call

unfoldable pub step : Call → LoginThrottle → LoginThrottle
step (asked key now) t = (allowed key now t).0
step (failed key now) t = failure key now t
step (succeeded key) t = success key t

unfoldable pub run : List Call → LoginThrottle → LoginThrottle
run [] t = t
run (c ∷ older) t = step c (run older t)

-- The failures of a key since its last success that are younger than the window.
unfoldable pub recent : ℕ → Str → ℕ → List Call → ℕ
recent window key now [] = 0
recent window key now (asked k t ∷ older) = recent window key now older
recent window key now (failed k t ∷ older) =
    let rest = recent window key now older in
    if k == key && ltb now (t + window) then suc rest else rest
recent window key now (succeeded k ∷ older) =
    let rest = recent window key now older in if k == key then 0 else rest

-- The clock does not go back, and `now` is not before any call.
abbrev pub UpTo : ℕ → List Call → Type 0
UpTo now [] = Unit
UpTo now (asked k t ∷ older) = (t ≤ now) × UpTo t older
UpTo now (failed k t ∷ older) = (t ≤ now) × UpTo t older
UpTo now (succeeded k ∷ older) = UpTo now older

UpTo-le : (m n : ℕ) (calls : List Call) → m ≤ n → UpTo m calls → UpTo n calls
UpTo-le m n [] h u = tt
UpTo-le m n (asked k t ∷ older) h u = (omega (arith, u.0), u.1)
UpTo-le m n (failed k t ∷ older) h u = (omega (arith, u.0), u.1)
UpTo-le m n (succeeded k ∷ older) h u = UpTo-le m n older h u

drop_expired-twice :
    (window s now : ℕ) (ts : List ℕ)
    → s ≤ now
    → drop_expired window now (drop_expired window s ts) ≡ drop_expired window now ts
unfolding drop_expired
drop_expired-twice window s now [] h = refl
drop_expired-twice window s now (t ∷ ts) h = ground (arith, drop_expired-twice window s now ts h)

-- A new event that is alive stays at the end.
drop_expired-alive :
    (window now t : ℕ) (ts : List ℕ)
    → now < t + window
    → length (drop_expired window now (ts ++ (t ∷ []))) ≡ suc (length (drop_expired window now ts))
unfolding drop_expired
drop_expired-alive window now t [] h = ground arith
drop_expired-alive window now t (u ∷ ts) h = elim (Bool-cases (leb (u + window) now)) [
  | inl old ↦ rw old (drop_expired-alive window now t ts h)
  | inr young ↦ rw young (ap suc (length-snoc ts))
]
  where
    length-snoc : (us : List ℕ) → length (us ++ (t ∷ [])) ≡ suc (length us)
    length-snoc [] = omega arith
    length-snoc (v ∷ us) = ap suc (length-snoc us)

-- Events that are no younger than one that expired have expired.
drop_expired-old :
    (window now t : ℕ) (ts : List ℕ)
    → t + window ≤ now
    → All (λ u. u ≤ t) ts
    → drop_expired window now ts ≡ []
unfolding drop_expired
drop_expired-old window now t [] h a = refl
drop_expired-old window now t (u ∷ ts) h a =
    let k = drop_expired-old window now t ts h a.1 in let l = a.0 in ground (arith, k, l)

All-drop_expired :
    (window now m : ℕ) (ts : List ℕ)
    → All (λ u. u ≤ m) ts
    → All (λ u. u ≤ m) (drop_expired window now ts)
unfolding drop_expired
All-drop_expired window now m [] a = a
All-drop_expired window now m (t ∷ ts) a = elim (Bool-cases (leb (t + window) now)) [
  | inl old ↦ rw old (All-drop_expired window now m ts a.1)
  | inr young ↦ rw young a
]

All-snoc : (m t : ℕ) (ts : List ℕ) → t ≤ m → All (λ u. u ≤ t) ts → All (λ u. u ≤ m) (ts ++ (t ∷ []))
All-snoc m t [] h a = (h, tt)
All-snoc m t (u ∷ ts) h a = (omega (arith, a.0), All-snoc m t ts h a.1)

All-le : (m n : ℕ) (ts : List ℕ) → m ≤ n → All (λ u. u ≤ m) ts → All (λ u. u ≤ n) ts
All-le m n [] h a = a
All-le m n (u ∷ ts) h a = (omega (arith, a.0), All-le m n ts h a.1)

events_of-set_events :
    (j k : Str) (ts : List ℕ) (t : LoginThrottle)
    → events_of j (set_events k ts t) ≡ (if k == j then ts else events_of j t)
unfolding events_of
events_of-set_events j k ts t = rw (lookup-insert j k ts t.events) (ground arith)

events_of-success :
    (j k : Str) (t : LoginThrottle)
    → events_of j (success k t) ≡ (if k == j then [] else events_of j t)
unfolding events_of success
events_of-success j k t = rw (lookup-erase j k t.events) (ground arith)

events_of-trim :
    (j k : Str) (now : ℕ) (t : LoginThrottle)
    → events_of j (trim k now t)
      ≡ (if k == j then drop_expired t.window now (events_of k t) else events_of j t)
unfolding trim
events_of-trim j k now t = events_of-set_events j k (drop_expired t.window now (events_of k t)) t

events_of-failure :
    (j k : Str) (now : ℕ) (t : LoginThrottle)
    → events_of j (failure k now t)
      ≡ (if k == j then drop_expired t.window now (events_of k t) ++ (now ∷ []) else events_of j t)
unfolding failure
events_of-failure j k now t =
    events_of-set_events j k (events_of k (trim k now t) ++ (now ∷ [])) (trim k now t)
    ∙ rw (events_of-trim k k now t, events_of-trim j k now t, eq_refl k) (ground arith)

run-settings :
    (calls : List Call) (t : LoginThrottle)
    → ((run calls t).window ≡ t.window) × ((run calls t).attempts ≡ t.attempts)
unfolding run step allowed failure success trim
run-settings [] t = (refl, refl)
run-settings (asked k s ∷ older) t = run-settings older t
run-settings (failed k s ∷ older) t = run-settings older t
run-settings (succeeded k ∷ older) t = run-settings older t

-- The young events that the throttle holds for a key are as many as its recent failures.
abbrev Fits : ℕ → Str → ℕ → List Call → List ℕ → Type 0
Fits window key now calls ts =
    (length (drop_expired window now ts) ≡ recent window key now calls) × All (λ u. u ≤ now) ts

-- Without events there is nothing to drop.
empty-Fits :
    (window : ℕ) (key : Str) (now : ℕ)
    → (length (drop_expired window now []) ≡ 0) × All (λ u. u ≤ now) []
unfolding drop_expired
empty-Fits window key now = (refl, tt)

failed-Fits :
    (window : ℕ) (key : Str) (now t : ℕ) (older : List Call) (ts : List ℕ)
    → t ≤ now
    → All (λ u. u ≤ t) ts
    → Fits window key now older ts
    → (length (drop_expired window now (drop_expired window t ts ++ (t ∷ []))) ≡ (
        let rest = recent window key now older in
        if true && ltb now (t + window) then suc rest else rest))
      × All (λ u. u ≤ now) (drop_expired window t ts ++ (t ∷ []))
failed-Fits window key now t older ts h a (e, b) =
    let young = All-drop_expired window t t ts a in
    (
      elim (Bool-cases (ltb now (t + window))) [
        | inl alive ↦ rw alive (
            drop_expired-alive window now t (drop_expired window t ts) (ground (arith, alive))
            ∙ ap suc (ap length (drop_expired-twice window t now ts h) ∙ e))
        | inr dead ↦
            let d : t + window ≤ now = ground (arith, dead) in
            let all_old = drop_expired-old window now t ts d a in
            let k : 0 ≡ recent window key now older = rw all_old at e in
            rw dead (
              ap length (
                drop_expired-old window now t (drop_expired window t ts ++ (t ∷ [])) d
                  (All-snoc t t (drop_expired window t ts) (omega arith) young))
              ∙ k)
      ],
      All-snoc now t (drop_expired window t ts) h young,
    )

module _ (key : Str) (throttle : LoginThrottle) where
  abbrev kept : List Call → List ℕ
  kept calls = events_of key (run calls throttle)

  run-Fits :
      (calls : List Call) (now : ℕ)
      → events_of key throttle ≡ []
      → UpTo now calls
      → Fits throttle.window key now calls (kept calls)
  unfolding run step recent allowed
  run-Fits [] now e u = rw e (empty-Fits throttle.window key now)
  run-Fits (asked k t ∷ older) now e u =
      let ih = run-Fits older now e (UpTo-le t now older u.0 u.1) in
      let w = (run-settings older throttle).0 in
      rw (events_of-trim key k t (run older throttle), w)
        (elim (Bool-cases (k == key)) [
          | inl same ↦
              rw (same, (eq_iff k key).0 same)
                (
                  ap length (drop_expired-twice throttle.window t now (kept older) u.0) ∙ ih.0,
                  All-drop_expired throttle.window t now (kept older) ih.1,
                )
          | inr other ↦ rw other ih
        ])
  run-Fits (failed k t ∷ older) now e u =
      let ih = run-Fits older now e (UpTo-le t now older u.0 u.1) in
      let at_t = run-Fits older t e u.1 in
      let w = (run-settings older throttle).0 in
      rw (events_of-failure key k t (run older throttle), w)
        (elim (Bool-cases (k == key)) [
          | inl same ↦
              rw (same, (eq_iff k key).0 same)
                (failed-Fits throttle.window key now t older (kept older) u.0 at_t.1 ih)
          | inr other ↦ rw other ih
        ])
  run-Fits (succeeded k ∷ older) now e u =
      let ih = run-Fits older now e u in
      rw (events_of-success key k (run older throttle)) (elim (Bool-cases (k == key)) [
        | inl same ↦ rw same (empty-Fits throttle.window key now)
        | inr other ↦ rw other ih
      ])

  -- After any history of calls for any keys, on a clock that does not go back, a key is allowed to
  -- try exactly if its failures since its last success that are younger than the window are fewer
  -- than the attempts.
  pub allowed-recent :
      (calls : List Call) (now : ℕ)
      → events_of key throttle ≡ []
      → UpTo now calls
      → (allowed key now (run calls throttle)).1
        ≡ ltb (recent throttle.window key now calls) throttle.attempts
  unfolding allowed
  allowed-recent calls now e u =
      let s = run-settings calls throttle in
      let f = run-Fits calls now e u in
      let k : length (drop_expired (run calls throttle).window now (kept calls))
          ≡ recent throttle.window key now calls =
        ap (λ w. length (drop_expired w now (kept calls))) s.0 ∙ f.0 in
      rw (events_of-trim key key now (run calls throttle), eq_refl key, k)
        (ap (ltb (recent throttle.window key now calls)) s.1)

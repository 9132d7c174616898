-- ===== src/Proc/Family/Changes.antt =====
-- The parentage is kept when a process joins, ends or leaves.
use mathlib.Core.Path.{subst}
use void.Base.{
  ℕ, ◌+◌, ◌<◌, ◌≡◌, ◌≢◌, ◌⊎◌, refl, sym, ap, ◌∙◌, true, false, ◌&&◌, ◌==◌, Bool-cases, inl, inr,
  arith,
}
use void.Proc.Family.{Kin, live, ParentAt, FamilyOk, joined, ended}

joined_cases :
    (f : ℕ → Kin) (i : ℕ) (c : Kin) (k : ℕ)
    → ((k ≡ i) × (joined f i c k ≡ c)) ⊎ ((k ≢ i) × (joined f i c k ≡ f k))
joined_cases f i c k = elim (Bool-cases (k == i)) [
  | inl h ↦ inl (ground (arith, h), rw h refl)
  | inr h ↦ inr ((λ e. ground (arith, h, e)), rw h refl)
]

pub same-FamilyOk :
    (f g : ℕ → Kin) (next : ℕ) → ((k : ℕ) → g k ≡ f k) → FamilyOk f next → FamilyOk g next
same-FamilyOk f g next same ok = subst (λ h. FamilyOk h next) (λ i k. sym (same k) i) ok

live_here : (c : Kin) → live c ≡ true → (c.here ≡ true) × (c.dead ≡ false)
live_here c h = (ground (arith, h), ground (arith, h))

module _ (f : ℕ → Kin) (next : ℕ) (ok : FamilyOk f next) where
  -- A child of a living process, under the next pid.
  pub joined-FamilyOk :
      (i q : ℕ) (c : Kin)
      → (f i).here ≡ false
      → live (f q) ≡ true
      → live c ≡ true
      → c.pid ≡ next
      → c.ppid ≡ (f q).pid
      → FamilyOk (joined f i c) (next + 1)
  joined-FamilyOk i q c free alive lives pid ppid =
      let stays : (k : ℕ) → (f k).here ≡ true → joined f i c k ≡ f k = λ k h.
        elim (joined_cases f i c k) [
          | inl (e, _) ↦ cc (h, ap (λ k. (f k).here) e, free)
          | inr (_, e) ↦ e
        ] in
      let root_stays = stays 0 (live_here (f 0) ok.root.1).0 in
      record {
        root = (ap (λ c. c.pid) root_stays ∙ ok.root.0, ap live root_stays ∙ ok.root.1);
        unique = λ j k hj hk e. elim (joined_cases f i c j) [
          | inl (j_is, at_j) ↦ elim (joined_cases f i c k) [
            | inl (k_is, _) ↦ j_is ∙ sym k_is
            | inr (_, at_k) ↦
                let y = ok.young k (sym (ap (λ c. c.here) at_k) ∙ hk) in
                absurd (omega (arith, y, ap (λ c. c.pid) at_j, ap (λ c. c.pid) at_k, e, pid))
          ]
          | inr (_, at_j) ↦ elim (joined_cases f i c k) [
            | inl (_, at_k) ↦
                let y = ok.young j (sym (ap (λ c. c.here) at_j) ∙ hj) in
                absurd (omega (arith, y, ap (λ c. c.pid) at_j, ap (λ c. c.pid) at_k, e, pid))
            | inr (_, at_k) ↦
                ok.unique j k (sym (ap (λ c. c.here) at_j) ∙ hj) (sym (ap (λ c. c.here) at_k) ∙ hk)
                  (sym (ap (λ c. c.pid) at_j) ∙ e ∙ ap (λ c. c.pid) at_k)
          ]
        ];
        young = λ k h. elim (joined_cases f i c k) [
          | inl (_, at) ↦ omega (arith, ap (λ c. c.pid) at, pid)
          | inr (_, at) ↦
              let y = ok.young k (sym (ap (λ c. c.here) at) ∙ h) in
              omega (arith, ap (λ c. c.pid) at, y)
        ];
        parented = λ k h not_root. elim (joined_cases f i c k) [
          | inl (_, at) ↦
              let at_q = stays q (live_here (f q) alive).0 in
              let y = ok.young q (live_here (f q) alive).0 in
              (
                q,
                record {
                  alive = ap live at_q ∙ alive;
                  named = ap (λ c. c.pid) at_q ∙ sym ppid ∙ sym (ap (λ c. c.ppid) at);
                  older = omega (arith, ap (λ c. c.pid) at, ap (λ c. c.ppid) at, y, pid, ppid);
                },
              )
          | inr (_, at) ↦
              let (j, p) = ok.parented k (sym (ap (λ c. c.here) at) ∙ h) not_root in
              let at_j = stays j (live_here (f j) p.alive).0 in
              (
                j,
                record {
                  alive = ap live at_j ∙ p.alive;
                  named = ap (λ c. c.pid) at_j ∙ p.named ∙ sym (ap (λ c. c.ppid) at);
                  older = omega (arith, ap (λ c. c.pid) at, ap (λ c. c.ppid) at, p.older);
                },
              )
        ];
      }

  -- A dead process leaves.
  pub left-FamilyOk :
      (i : ℕ) (c : Kin) → (f i).dead ≡ true → c.here ≡ false → FamilyOk (joined f i c) next
  left-FamilyOk i c dead gone =
      let stays : (k : ℕ) → live (f k) ≡ true → joined f i c k ≡ f k = λ k h.
        elim (joined_cases f i c k) [
          | inl (e, _) ↦ cc (dead, ap (λ k. (f k).dead) e, (live_here (f k) h).1)
          | inr (_, e) ↦ e
        ] in
      let same : (k : ℕ) → (joined f i c k).here ≡ true → joined f i c k ≡ f k = λ k h.
        elim (joined_cases f i c k) [
          | inl (_, e) ↦ cc (h, ap (λ c. c.here) e, gone)
          | inr (_, e) ↦ e
        ] in
      let at_root = stays 0 ok.root.1 in
      record {
        root = (ap (λ c. c.pid) at_root ∙ ok.root.0, ap live at_root ∙ ok.root.1);
        unique = λ j k hj hk e.
            ok.unique j k (sym (ap (λ c. c.here) (same j hj)) ∙ hj)
              (sym (ap (λ c. c.here) (same k hk)) ∙ hk)
              (sym (ap (λ c. c.pid) (same j hj)) ∙ e ∙ ap (λ c. c.pid) (same k hk));
        young = λ k h.
            let y = ok.young k (sym (ap (λ c. c.here) (same k h)) ∙ h) in
            omega (arith, ap (λ c. c.pid) (same k h), y);
        parented = λ k h not_root.
            let at = same k h in
            let (j, p) = ok.parented k (sym (ap (λ c. c.here) at) ∙ h) not_root in
            let at_j = stays j p.alive in
            (
              j,
              record {
                alive = ap live at_j ∙ p.alive;
                named = ap (λ c. c.pid) at_j ∙ p.named ∙ sym (ap (λ c. c.ppid) at);
                older = omega (arith, ap (λ c. c.pid) at, ap (λ c. c.ppid) at, p.older);
              },
            );
      }

module _ (f : ℕ → Kin) (next : ℕ) (ok : FamilyOk f next) (status : ℕ) where
  same_pid :
      (i k : ℕ) → ((ended f i status k).pid ≡ (f k).pid) × ((ended f i status k).here ≡ (f k).here)
  same_pid i k = elim (Bool-cases (k == i)) [
    | inl h ↦
        let e : k ≡ i = ground (arith, h) in
        rw h (ap (λ k. (f k).pid) (sym e), ap (λ k. (f k).here) (sym e))
    | inr h ↦ elim (Bool-cases ((f k).here && (f k).ppid == (f i).pid)) [
      | inl c ↦ rw (h, c) (refl, refl)
      | inr c ↦ rw (h, c) (refl, refl)
    ]
  ]

  stays_alive : (i k : ℕ) → k ≢ i → live (ended f i status k) ≡ live (f k)
  stays_alive i k ne =
      let h : (k == i) ≡ false = ground arith in
      elim (Bool-cases ((f k).here && (f k).ppid == (f i).pid)) [
        | inl c ↦ rw (h, c) refl
        | inr c ↦ rw (h, c) refl
      ]

  -- A parent for a process whose ppid names a living one.
  adopted :
      (i k j : ℕ)
      → live (f j) ≡ true
      → (f j).pid ≡ (ended f i status k).ppid
      → (ended f i status k).ppid < (f k).pid
      → j ≢ i
      → ParentAt (ended f i status) (ended f i status k) j
  adopted i k j alive named older ne = record {
    alive = stays_alive i j ne ∙ alive;
    named = (same_pid i j).0 ∙ named;
    older = omega (arith, (same_pid i k).0, older);
  }

  parent_after :
      (i : ℕ)
      → live (f i) ≡ true
      → i ≢ 0
      → (k : ℕ) → (f k).here ≡ true
      → k ≢ 0
      → (j : ℕ) × ParentAt (ended f i status) (ended f i status k) j
  parent_after i alive other k h not_root =
      let (g, p) = ok.parented i (live_here (f i) alive).0 other in
      let (j, q) = ok.parented k h not_root in
      let apart_g : g ≢ i =
        λ e. let n = p.named in let o = p.older in ground (arith, n, o, ap (λ k. (f k).pid) e) in
      elim (Bool-cases (k == i)) [
        | inl e ↦
            let at : k ≡ i = ground (arith, e) in
            let ppid : (ended f i status k).ppid ≡ (f i).ppid = rw e refl in
            (
              g,
              adopted i k g p.alive (p.named ∙ sym ppid)
                  (omega (arith, ppid, p.older, ap (λ k. (f k).pid) at)) apart_g,
            )
        | inr e ↦ elim (Bool-cases ((f k).here && (f k).ppid == (f i).pid)) [
          | inl c ↦
              let ppid : (ended f i status k).ppid ≡ (f i).ppid = rw (e, c) refl in
              let child : (f k).ppid ≡ (f i).pid = ground (arith, c) in
              (
                g,
                adopted i k g p.alive (p.named ∙ sym ppid)
                    (omega (arith, ppid, p.older, q.older, child)) apart_g,
              )
          | inr c ↦
              let ppid : (ended f i status k).ppid ≡ (f k).ppid = rw (e, c) refl in
              let apart_j : j ≢ i =
                λ at. let n = q.named in ground (arith, n, ap (λ k. (f k).pid) at, c, h) in
              (j, adopted i k j q.alive (q.named ∙ sym ppid) (omega (arith, ppid, q.older)) apart_j)
        ]
      ]

  -- The end of a process other than the kernel's.
  pub ended-FamilyOk : (i : ℕ) → live (f i) ≡ true → i ≢ 0 → FamilyOk (ended f i status) next
  ended-FamilyOk i alive other = record {
    root = ((same_pid i 0).0 ∙ ok.root.0, stays_alive i 0 (λ e. other (sym e)) ∙ ok.root.1);
    unique = λ j k hj hk e.
        ok.unique j k (sym (same_pid i j).1 ∙ hj) (sym (same_pid i k).1 ∙ hk)
          (sym (same_pid i j).0 ∙ e ∙ (same_pid i k).0);
    young =
        λ k h. let y = ok.young k (sym (same_pid i k).1 ∙ h) in omega (arith, (same_pid i k).0, y);
    parented = λ k h not_root. parent_after i alive other k (sym (same_pid i k).1 ∙ h) not_root;
  }

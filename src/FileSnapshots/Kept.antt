-- ===== src/FileSnapshots/Kept.antt =====
-- What is current is not deleted, and what `take` shares is the file as it is.
use makebelieve.Base.{
  ℕ, ◌≡◌, refl, sym, ap, subst, ◌∙◌, ◌≢◌, inl, inr, Option, none, some, List, [], ◌∷◌,
  if◌then◌else◌, Bool-cases, ℕ-HasTest, List-HasTest, eq_self, eq_cases, Result, ok, err, ne_test,
}
use makebelieve.Base.OrdMap
use makebelieve.Base.Optional.{some_value, no_value}
use makebelieve.Paths.{FilePath, FilePath-Order}
use makebelieve.DirectoryTree.{FileContent, DirectoryTreeDiff, ErrorCode}
use makebelieve.FileSnapshots.{
  FileSnapshot, Snapshots, change_path, change_paths, changed, end_take, expire, erase_if_current,
  forget_from, forget,
}

-- Each current address is that of a snapshot of that file, which is not deleted.
pub record IsKept (s : Snapshots) : Type 0 where
  pub current :
      (p : FilePath) (a : ℕ)
      → OrdMap.find p s.current ≡ some a
      → (n : FileSnapshot) × (OrdMap.find a s.held ≡ some n) × (n.path ≡ p)

erased :
    (q p : FilePath) (m : List (FilePath × ℕ)) {a : ℕ}
    → OrdMap.find p (OrdMap.erase q m) ≡ some a
    → (q ≢ p) × (OrdMap.find p m ≡ some a)
erased q p m {a} h = elim (eq_cases q p) [
  | inl (_, t) ↦ absurd (no_value (sym (OrdMap.find-erase q p m ∙ rw t refl) ∙ h))
  | inr (ne, t) ↦ (ne, sym (OrdMap.find-erase q p m ∙ rw t refl) ∙ h)
]

paths-IsKept : (qs : List FilePath) (s : Snapshots) → IsKept s → IsKept (change_paths qs s)
unfolding change_paths change_path
paths-IsKept [] s k = k
paths-IsKept (q ∷ qs) s k =
    paths-IsKept qs (change_path q s)
      (record { current = λ p a h. k.current p a (erased q p s.current h).1 })

changed-IsKept : (diff : DirectoryTreeDiff) (s : Snapshots) → IsKept s → IsKept (changed diff s)
unfolding changed OrdMap.find
changed-IsKept diff s k = elim (Bool-cases diff.everything_dirty) [
  | inl t ↦ rw t (record { current = λ p a h. absurd (no_value h) })
  | inr t ↦ rw t (paths-IsKept diff.entries_changed s k)
]

end-IsKept :
    (s : Snapshots) (path : FilePath) (before address : ℕ) (content : Result ErrorCode FileContent)
    → OrdMap.find address s.held ≡ none
    → IsKept s
    → IsKept (end_take s path before address content).1
unfolding end_take
end-IsKept s path before address (err e) new k = k
end-IsKept s path before address (ok content) new k = record {
  current = λ p a h. elim (eq_cases path p) [
    | inl (e, _) ↦ here p a e (
        sym (
          subst (λ x. OrdMap.find x (OrdMap.assign path address s.current) ≡ some address) e
            (OrdMap.find_same path address s.current))
        ∙ h)
    | inr (ne, _) ↦ there p a (sym (OrdMap.find_other path p address s.current ne) ∙ h)
  ];
}
  where
    taken : FileSnapshot
    taken = record {
      path = path;
      bytes = content.bytes;
      mtime = content.info.mtime;
      generation = before;
    }

    here :
        (p : FilePath) (a : ℕ)
        → path ≡ p
        → some address ≡ some a
        → (n : FileSnapshot) × (OrdMap.find a ((address, taken) ∷ s.held) ≡ some n) × (n.path ≡ p)
    here p a e h = (taken, unfold OrdMap.find in rw (some_value h, eq_self a) refl, e)

    there :
        (p : FilePath) (a : ℕ)
        → OrdMap.find p s.current ≡ some a
        → (n : FileSnapshot) × (OrdMap.find a ((address, taken) ∷ s.held) ≡ some n) × (n.path ≡ p)
    there p a h =
        let (n, f, e) = k.current p a h in
        (
          n,
          (unfold OrdMap.find in
              rw
                (ne_test address a
                  (λ x. no_value (sym new ∙ subst (λ y. OrdMap.find y s.held ≡ some n) (sym x) f)))
                f),
          e,
        )

forget-IsKept : (s : Snapshots) (a : ℕ) → IsKept s → IsKept (forget s a)
unfolding forget
forget-IsKept s a k = go (OrdMap.find a s.held) refl
  where
    owner :
        (n : FileSnapshot)
        → OrdMap.find a s.held ≡ some n
        → (p : FilePath) (b : ℕ) → OrdMap.find p s.current ≡ some b
        → a ≡ b
        → n.path ≡ p
    owner n f p b h e =
        let (m, g, at) = k.current p b h in
        ap (λ y. y.path) (some_value (sym f ∙ subst (λ y. OrdMap.find y s.held ≡ some m) (sym e) g))
        ∙ at

    read_at :
        (n : FileSnapshot) (c : Option ℕ)
        → OrdMap.find n.path s.current ≡ c
        → (p : FilePath) {b : Option ℕ} → n.path ≡ p
        → OrdMap.find p s.current ≡ b
        → c ≡ b
    read_at n c e p {b} same_path h =
        sym e ∙ subst (λ q. OrdMap.find q s.current ≡ b) (sym same_path) h

    other :
        (n : FileSnapshot)
        → OrdMap.find a s.held ≡ some n
        → (c : Option ℕ) → OrdMap.find n.path s.current ≡ c
        → (p : FilePath) (b : ℕ) → OrdMap.find p (erase_if_current s a n.path c) ≡ some b
        → (a ≢ b) × (OrdMap.find p s.current ≡ some b)
    other n f none e p b h = (λ x. no_value (read_at n none e p (owner n f p b h x) h), h)
    other n f (some c) e p b h = elim (eq_cases c a) [
      | inl (_, t) ↦
          let (ne, old) = erased n.path p s.current (
            subst
              (λ y. OrdMap.find p (if y then OrdMap.erase n.path s.current else s.current) ≡ some b)
              t h) in
          ((λ x. ne (owner n f p b old x)), old)
      | inr (ne, t) ↦
          let old =
            subst
              (λ y. OrdMap.find p (if y then OrdMap.erase n.path s.current else s.current) ≡ some b)
              t h in
          ((λ x. ne (some_value (read_at n (some c) e p (owner n f p b old x) old) ∙ sym x)), old)
    ]

    still :
        (b : ℕ) (m : FileSnapshot)
        → a ≢ b
        → OrdMap.find b s.held ≡ some m
        → OrdMap.find b (OrdMap.erase a s.held) ≡ some m
    still b m ne g = rw (OrdMap.find-erase a b s.held, ne_test a b ne) g

    go : (o : Option FileSnapshot) → OrdMap.find a s.held ≡ o → IsKept (forget_from s a o)
    go none f = k
    go (some n) f = record {
      current = λ p b h.
          let (ne, old) = other n f (OrdMap.find n.path s.current) refl p b h in
          let (m, g, at) = k.current p b old in (m, still b m ne g, at);
    }

-- The states that the operations lead to.
pub data Reached : Snapshots → Type 0 where
  at_first : Reached (record {
    clock = 0;
    everything = 0;
    generations = [];
    current = [];
    held = [];
    expired = [];
  })
  changes : {s : Snapshots} → Reached s → (diff : DirectoryTreeDiff) → Reached (changed diff s)
  takes :
      {s : Snapshots}
      → Reached s
      → (path : FilePath) (before address : ℕ) (content : Result ErrorCode FileContent)
      → OrdMap.find address s.held ≡ none
      → Reached (end_take s path before address content).1
  expires : {s : Snapshots} → Reached s → (a : ℕ) → Reached (expire s a)
  forgets : {s : Snapshots} → Reached s → (a : ℕ) → Reached (forget s a)

-- As long as no two snapshots not yet deleted share an address, each current address is that of a
-- snapshot of its file that is not yet deleted, in whatever order files change, are taken and their
-- snapshots are let go.
pub Reached-IsKept : {s : Snapshots} → Reached s → IsKept s
unfolding expire OrdMap.find
Reached-IsKept at_first = record { current = λ p a h. absurd (no_value h) }
Reached-IsKept (changes {s} r diff) = changed-IsKept diff s (Reached-IsKept r)
Reached-IsKept (takes {s} r path before address content new) =
    end-IsKept s path before address content new (Reached-IsKept r)
Reached-IsKept (expires {s} r a) = record { current = (Reached-IsKept r).current }
Reached-IsKept (forgets {s} r a) = forget-IsKept s a (Reached-IsKept r)

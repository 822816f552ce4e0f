-- ===== src/ZoneLoop/FreePorts.antt =====
-- The host ports that a pass binds: free ones, each once, and one for each port while there are some.
use innerstack.Prelude.{
  ℕ, suc, ◌+◌, ◌≤◌, ◌<◌, ◌≡◌, refl, sym, ap, ◌∙◌, ◌⊎◌, inl, inr, true, false, ◌||◌, List, [], ◌∷◌,
  ◌++◌, ◌==◌, number_key, eqb_iff, contains, length, ltb, arith, Bool-cases, IsIn, by_if,
}
use innerstack.Prelude.Map.{Map}
use innerstack.Sort.Insertion.{insertion_sort, insert_sorted}
use innerstack.Network.HostPort.{host_port_limit, host_port_alloc}
use innerstack.Network.HostPort.Free.{host_port_alloc_auto, host_port_alloc-free}
use innerstack.ZoneLoop.{SpecPort, ServicePort, Outside}
use innerstack.ZoneLoop.Ports.{Binding, sort_ports, has_port, bind_port, bind_ports}

contains-insert_sorted :
    (x a : ℕ) (xs : List ℕ) → contains (insert_sorted ltb x xs) a ≡ (x == a || contains xs a)
unfolding insert_sorted
contains-insert_sorted x a [] = refl
contains-insert_sorted x a (y ∷ ys) = ground (arith, contains-insert_sorted x a ys)

length-insert_sorted : (x : ℕ) (xs : List ℕ) → length (insert_sorted ltb x xs) ≡ suc (length xs)
unfolding insert_sorted
length-insert_sorted x [] = refl
length-insert_sorted x (y ∷ ys) = ground (arith, length-insert_sorted x ys)

-- Sorting changes neither what a list has nor how long it is.
pub contains-sort_ports : (xs : List ℕ) (a : ℕ) → contains (sort_ports xs) a ≡ contains xs a
unfolding insertion_sort
contains-sort_ports [] a = refl
contains-sort_ports (x ∷ xs) a =
    contains-insert_sorted x a (sort_ports xs) ∙ ap (λ b. x == a || b) (contains-sort_ports xs a)

pub length-sort_ports : (xs : List ℕ) → length (sort_ports xs) ≡ length xs
unfolding insertion_sort
length-sort_ports [] = refl
length-sort_ports (x ∷ xs) = length-insert_sorted x (sort_ports xs) ∙ ap suc (length-sort_ports xs)

contains-snoc : (xs : List ℕ) (x a : ℕ) → contains (xs ++ x ∷ []) a ≡ (contains xs a || x == a)
contains-snoc [] x a = ground arith
contains-snoc (y ∷ ys) x a = ground (arith, contains-snoc ys x a)

length-snoc : {A : Type 0} (xs : List A) (x : A) → length (xs ++ x ∷ []) ≡ suc (length xs)
length-snoc [] x = refl
length-snoc (y ∷ ys) x = ap suc (length-snoc ys x)

-- No number stands twice.
pub AllDiffer : List ℕ → Type 0
AllDiffer [] = Unit {0}
AllDiffer (x ∷ xs) = (contains xs x ≡ false) × AllDiffer xs

AllDiffer-snoc :
    (xs : List ℕ) (x : ℕ) → AllDiffer xs → contains xs x ≡ false → AllDiffer (xs ++ x ∷ [])
unfolding AllDiffer
AllDiffer-snoc [] x d h = (refl, tt)
AllDiffer-snoc (y ∷ ys) x d h = (
  ground (arith, contains-snoc ys x y, eqb_iff y x, eqb_iff x y, d.0, h),
  AllDiffer-snoc ys x d.1 (ground (arith, h)),
)

abbrev host_ports : List ServicePort → List ℕ
host_ports [] = []
host_ports (sp ∷ rest) = sp.host_port ∷ host_ports rest

host_ports-snoc :
    (set : List ServicePort) (sp : ServicePort)
    → host_ports (set ++ sp ∷ []) ≡ host_ports set ++ sp.host_port ∷ []
host_ports-snoc [] sp = refl
host_ports-snoc (x ∷ xs) sp = ap (λ l. x.host_port ∷ l) (host_ports-snoc xs sp)

has_port-snoc :
    (set : List ServicePort) (sp : ServicePort) (p : ℕ)
    → has_port (set ++ sp ∷ []) p ≡ (has_port set p || sp.port == p)
has_port-snoc [] sp p = ground arith
has_port-snoc (x ∷ xs) sp p = ground (arith, has_port-snoc xs sp p)

-- The ports set differ in their host ports, which the host's list has.
pub record IsBound (b : Binding) : Type 0 where
  pub differ : AllDiffer (host_ports b.set)
  pub listed : (a : ℕ) → contains (host_ports b.set) a ≡ true → contains b.used a ≡ true

-- What the loop does not take back.
pub record Grows (b c : Binding) : Type 0 where
  pub used : (a : ℕ) → contains b.used a ≡ true → contains c.used a ≡ true
  pub set : (p : ℕ) → has_port b.set p ≡ true → has_port c.set p ≡ true
  pub fresh :
      (a : ℕ)
      → contains (host_ports c.set) a ≡ true
      → (contains (host_ports b.set) a ≡ true) ⊎ (contains b.used a ≡ false)

Grows-refl : (b : Binding) → Grows b b
Grows-refl b = record { used = λ a h. h; set = λ p h. h; fresh = λ a h. inl h }

-- The state after a port was added.
abbrev added : SpecPort → ℕ → Binding → Binding
added sp hp b = record {
  set = b.set ++ record { name = sp.name; port = sp.port; host_port = hp } ∷ [];
  used = sort_ports (b.used ++ hp ∷ []);
  flush = true;
  asked = suc b.asked;
}

contains-added :
    (sp : SpecPort) (hp a : ℕ) (b : Binding)
    → contains (added sp hp b).used a ≡ (contains b.used a || hp == a)
contains-added sp hp a b = contains-sort_ports (b.used ++ hp ∷ []) a ∙ contains-snoc b.used hp a

host_ports-added :
    (sp : SpecPort) (hp a : ℕ) (b : Binding)
    → contains (host_ports (added sp hp b).set) a ≡ (contains (host_ports b.set) a || hp == a)
host_ports-added sp hp a b =
    ap (λ l. contains l a)
      (host_ports-snoc b.set (record { name = sp.name; port = sp.port; host_port = hp }))
    ∙ contains-snoc (host_ports b.set) hp a

not_listed :
    (b : Binding) (hp : ℕ)
    → IsBound b
    → contains b.used hp ≡ false
    → contains (host_ports b.set) hp ≡ false
not_listed b hp i free = elim (Bool-cases (contains (host_ports b.set) hp)) [
  | inl e ↦ let t = i.listed hp e in cc
  | inr e ↦ e
]

added-IsBound :
    (sp : SpecPort) (hp : ℕ) (b : Binding)
    → contains b.used hp ≡ false
    → IsBound b
    → IsBound (added sp hp b)
added-IsBound sp hp b free i = record {
  differ =
      rw (host_ports-snoc b.set (record { name = sp.name; port = sp.port; host_port = hp }))
        (AllDiffer-snoc (host_ports b.set) hp i.differ (not_listed b hp i free));
  listed = λ a h. elim (Bool-cases (contains (host_ports b.set) a)) [
    | inl e ↦ contains-added sp hp a b ∙ ap (λ t. t || hp == a) (i.listed a e) ∙ refl
    | inr e ↦ ground (arith, contains-added sp hp a b, host_ports-added sp hp a b, h, e)
  ];
}

added-Grows :
    (sp : SpecPort) (hp : ℕ) (b : Binding) → contains b.used hp ≡ false → Grows b (added sp hp b)
added-Grows sp hp b free = record {
  used = λ a h. contains-added sp hp a b ∙ ap (λ t. t || hp == a) h;
  set = λ p h.
      has_port-snoc b.set (record { name = sp.name; port = sp.port; host_port = hp }) p
      ∙ ap (λ t. t || sp.port == p) h;
  fresh = λ a h. elim (Bool-cases (contains (host_ports b.set) a)) [
    | inl e ↦ inl e
    | inr e ↦
        let same : hp ≡ a = (eqb_iff hp a).0 (ground (arith, host_ports-added sp hp a b, h, e)) in
        inr (rw (← same) free)
  ];
}

Grows-trans : (b c d : Binding) → Grows b c → Grows c d → Grows b d
Grows-trans b c d f g = record {
  used = λ a h. g.used a (f.used a h);
  set = λ p h. g.set p (f.set p h);
  fresh = λ a h. elim (g.fresh a h) [
    | inl e ↦ f.fresh a e
    | inr e ↦ elim (Bool-cases (contains b.used a)) [
      | inl t ↦ let u = f.used a t in cc
      | inr t ↦ inr t
    ]
  ];
}

abbrev hp_of : Outside → Binding → ℕ
hp_of out b = host_port_alloc (out.rand b.asked) b.used 0

chosen_free :
    (out : Outside) (b : Binding)
    → (hp_of out b == 0) ≡ false
    → contains b.used (hp_of out b) ≡ false
chosen_free out b e = elim (host_port_alloc-free (out.rand b.asked) b.used 0) [
  | inl z ↦ absurd (ground (arith, e, z))
  | inr f ↦ f
]

-- What one round does to the ports.
pub record IsStep (b c : Binding) : Type 0 where
  pub bound : IsBound b → IsBound c
  pub grows : Grows b c

IsStep-same : (b c : Binding) → c.set ≡ b.set → c.used ≡ b.used → IsStep b c
IsStep-same b c e f = record {
  bound = λ i. record {
    differ = rw e i.differ;
    listed = λ a h. rw f (i.listed a (ap (λ l. contains (host_ports l) a) (sym e) ∙ h));
  };
  grows = record {
    used = λ a h. rw f h;
    set = λ p h. rw e h;
    fresh = λ a h. inl (ap (λ l. contains (host_ports l) a) (sym e) ∙ h);
  };
}

bind_port-IsStep : (out : Outside) (sp : SpecPort) (b : Binding) → IsStep b (bind_port out sp b)
unfolding bind_port
bind_port-IsStep out sp b =
    by_if (IsStep b) (has_port b.set sp.port) b _ (λ e. IsStep-same b b refl refl)
      (λ e.
        by_if (IsStep b) (hp_of out b == 0) (record b { asked = suc b.asked })
          (added sp (hp_of out b) b)
          (λ q. IsStep-same b (record b { asked = suc b.asked }) refl refl)
          (λ q. record {
            bound = added-IsBound sp (hp_of out b) b (chosen_free out b q);
            grows = added-Grows sp (hp_of out b) b (chosen_free out b q);
          }))

-- Binding a replica's ports: if its host ports differ and are in the host's list before, they are so
-- after; the list keeps its ports, the replica keeps its own, and each host port that it gets was not
-- in the host's list.
pub bind_ports-IsStep :
    (out : Outside) (ports : Map ℕ SpecPort) (b : Binding) → IsStep b (bind_ports out ports b)
unfolding bind_ports
bind_ports-IsStep out [] b = IsStep-same b b refl refl
bind_ports-IsStep out ((p, sp) ∷ rest) b =
    let f = bind_port-IsStep out sp b in
    let g = bind_ports-IsStep out rest (bind_port out sp b) in
    record {
      bound = λ i. g.bound (f.bound i);
      grows = Grows-trans b (bind_port out sp b) _ f.grows g.grows;
    }

-- One round with a list that is not full leaves the port set, and the list longer by at most one.
bind_port_sets :
    (out : Outside) (sp : SpecPort) (b : Binding)
    → length b.used < host_port_limit
    → (has_port (bind_port out sp b).set sp.port ≡ true)
      × (length (bind_port out sp b).used ≤ suc (length b.used))
unfolding bind_port
bind_port_sets out sp b few =
    by_if (λ (c : Binding). (has_port c.set sp.port ≡ true) × (length c.used ≤ suc (length b.used)))
      (has_port b.set sp.port) b _ (λ e. (e, omega arith))
      (λ e.
        by_if
          (λ (c : Binding). (has_port c.set sp.port ≡ true) × (length c.used ≤ suc (length b.used)))
          (hp_of out b == 0) (record b { asked = suc b.asked }) (added sp (hp_of out b) b)
          (λ q. absurd (ground (arith, q, host_port_alloc_auto (out.rand b.asked) b.used few)))
          (λ q. (
            ground (
              arith,
              has_port-snoc b.set
                  (record { name = sp.name; port = sp.port; host_port = hp_of out b }) sp.port,
              eqb_iff sp.port sp.port,
            ),
            omega (
              arith,
              length-sort_ports (b.used ++ hp_of out b ∷ []),
              length-snoc b.used (hp_of out b),
            ),
          )))

-- Where the host's list has room for all ports of the spec, each of them gets a host port, whatever
-- the random numbers are.
pub bind_ports_all :
    (out : Outside) (ports : Map ℕ SpecPort) (b : Binding) (p : ℕ) (sp : SpecPort)
    → length b.used + length ports ≤ host_port_limit
    → IsIn (p, sp) ports
    → has_port (bind_ports out ports b).set sp.port ≡ true
unfolding bind_ports
bind_ports_all out [] b p sp few m = elim m [ ]
bind_ports_all out ((q, sq) ∷ rest) b p sp few (inl e) =
    let same : sp ≡ sq = ap (λ (x : ℕ × SpecPort). x.1) e in
    let (here, more) = bind_port_sets out sq b (omega arith) in
    (bind_ports-IsStep out rest (bind_port out sq b)).grows.set sp.port (rw same here)
bind_ports_all out ((q, sq) ∷ rest) b p sp few (inr m) =
    let (here, more) = bind_port_sets out sq b (omega arith) in
    bind_ports_all out rest (bind_port out sq b) p sp (omega (arith, more)) m

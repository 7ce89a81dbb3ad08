-- ===== src/StreamHub/Counts.antt =====
-- The slots along a history of connections.
use vms_ai.Prelude.{
  ℕ, suc, ◌+◌, ◌-◌, ◌<◌, ◌≤◌, leb, ◌==◌, ◌≡◌, refl, ap, ◌∙◌, inl, inr, ℤ, pos, pos_part, ltb_ℤ,
  Bool, true, false, ◌&&◌, Bool-cases, Option, none, some, List, [], ◌∷◌, length, if◌then◌else◌,
  All, Map, lookup, insert, erase, lookup-insert, lookup-erase, text_eq, text_beq, text_beq_iff,
  Text, arith,
}
use vms_ai.StreamHub.Slots.{
  u64_mod, ConnSlots, count_or_zero, take_slot, reserve_for_ip, try_reserve_conn_slot, released,
  release_conn_slot,
}

-- How often an address stands in a list.
abbrev pub times : Text → List Text → ℕ
times ip [] = 0
times ip (j ∷ open_ips) = (if text_beq ip j then 1 else 0) + times ip open_ips

-- One connection of an address less.
abbrev pub without_one : Text → List Text → List Text
without_one ip [] = []
without_one ip (j ∷ open_ips) = if text_beq ip j then open_ips else j ∷ without_one ip open_ips

-- A socket connects from an address, or one that is open goes: socketDisconnected releases its slot only
-- where the address is not empty.
pub data ConnEvent : Type 0 where
  connects : Text → ConnEvent
  goes : Text → ConnEvent

-- The socket that connects has an address.
abbrev pub IsNamed : ConnEvent → Type 0
IsNamed (connects ip) = (length ip == 0) ≡ false
IsNamed (goes ip) = Unit

-- The counts of the addresses are ints.
abbrev pub i32_max : ℕ
i32_max = 2147483647

-- The slots, and the addresses of the open connections.
pub record Connections : Type 0 where
  pub slots : ConnSlots
  pub open_ips : List Text

abbrev pub opened : Text → Connections → ConnSlots × Bool → Connections
opened ip c (s, accepted) = record {
  slots = s;
  open_ips = if accepted then ip ∷ c.open_ips else c.open_ips;
}

module _ (max_global max_per_ip : ℤ) where
  pub step : ConnEvent → Connections → Connections
  step (connects ip) c = opened ip c (try_reserve_conn_slot max_global max_per_ip ip c.slots)
  step (goes ip) c = if times ip c.open_ips == 0 then c else record {
    slots = if length ip == 0 then c.slots else release_conn_slot ip c.slots;
    open_ips = without_one ip c.open_ips;
  }

  pub history : List ConnEvent → Connections → Connections
  history [] c = c
  history (e ∷ es) c = history es (step e c)

  -- The slots say how many connections are open, of each address and in all, within the caps.
  pub record IsCounted (c : Connections) : Type 0 where
    pub each :
        (ip : Text)
        → lookup ip c.slots.per_ip
          ≡ (if times ip c.open_ips == 0 then none else some (times ip c.open_ips))
    pub all : c.slots.current ≡ length c.open_ips
    pub global_cap : ltb_ℤ (pos 0) max_global ≡ true → length c.open_ips ≤ pos_part max_global
    pub ip_cap :
        ltb_ℤ (pos 0) max_per_ip ≡ true → (ip : Text) → times ip c.open_ips ≤ pos_part max_per_ip

abbrev pub no_connections : Connections
no_connections = record { slots = record { per_ip = []; current = 0; peak = 0 }; open_ips = [] }

times-without_one :
    (ip j : Text) (open_ips : List Text)
    → times j (without_one ip open_ips) ≡ times j open_ips - (if text_beq ip j then 1 else 0)
times-without_one ip j [] = ground arith
times-without_one ip j (k ∷ open_ips) =
    ground (
      arith,
      text_beq_iff ip k,
      text_beq_iff j k,
      text_beq_iff ip j,
      times-without_one ip j open_ips,
    )

length-without_one :
    (ip : Text) (open_ips : List Text)
    → (times ip open_ips == 0) ≡ false
    → suc (length (without_one ip open_ips)) ≡ length open_ips
length-without_one ip [] h = cc
length-without_one ip (k ∷ open_ips) h = ground (arith, length-without_one ip open_ips)

length-opened-le :
    (ip : Text) (c : Connections) (r : ConnSlots × Bool)
    → length (opened ip c r).open_ips ≤ suc (length c.open_ips)
length-opened-le ip c (s, true) = omega arith
length-opened-le ip c (s, false) = omega arith

opened-named :
    (ip : Text) (c : Connections) (r : ConnSlots × Bool)
    → (length ip == 0) ≡ false
    → times [] c.open_ips ≡ 0
    → times [] (opened ip c r).open_ips ≡ 0
opened-named [] c r n h = cc
opened-named (x ∷ ip) c (s, true) n h = omega arith
opened-named (x ∷ ip) c (s, false) n h = h

-- An open connection has an address.
length-open :
    (ip : Text) (open_ips : List Text)
    → times [] open_ips ≡ 0
    → (times ip open_ips == 0) ≡ false
    → (length ip == 0) ≡ false
length-open [] open_ips named b = ground arith
length-open (x ∷ ip) open_ips named b = ground arith

-- The count that the map has for an address, of a list where it is right.
abbrev counted : ℕ → Option ℕ
counted n = if n == 0 then none else some n

count_or_zero-counted : (n : ℕ) → count_or_zero (counted n) ≡ n
unfolding count_or_zero
count_or_zero-counted n = ground arith

-- Every branch of a reservation leaves the right count of each address.
lookup-take_slot :
    (ip j : Text) (n : ℕ) (m : Map Text ℕ) (open_ips : List Text)
    → n ≡ times ip open_ips
    → ((k : Text) → lookup k m ≡ counted (times k open_ips))
    → lookup j (insert ip (n + 1) m) ≡ counted (times j (ip ∷ open_ips))
lookup-take_slot ip j n m open_ips e each =
    lookup-insert ip j (n + 1) m ∙ ground (arith, each j, text_beq_iff ip j, text_beq_iff j ip)

lookup-refused :
    (ip j : Text) (n : ℕ) (m : Map Text ℕ) (open_ips : List Text)
    → n ≡ times ip open_ips
    → ((k : Text) → lookup k m ≡ counted (times k open_ips))
    → lookup j (if n == 0 then erase ip m else insert ip n m) ≡ counted (times j open_ips)
lookup-refused ip j n m open_ips e each = elim (Bool-cases (n == 0)) [
  | inl b ↦ rw b (lookup-erase ip j m ∙ ground (arith, each j, text_beq_iff ip j))
  | inr b ↦ rw b (lookup-insert ip j n m ∙ ground (arith, each j, text_beq_iff ip j))
]

lookup-released :
    (ip j : Text) (m : Map Text ℕ) (open_ips : List Text)
    → (times ip open_ips == 0) ≡ false
    → ((k : Text) → lookup k m ≡ counted (times k open_ips))
    → lookup j (released ip m (lookup ip m)) ≡ counted (times j (without_one ip open_ips))
unfolding released
lookup-released ip j m open_ips some_open each =
    let n : ℕ = times ip open_ips in
    let found : lookup ip m ≡ some n = each ip ∙ rw some_open refl in
    let left = times-without_one ip j open_ips in
    ap (λ o. lookup j (released ip m o)) found ∙ (elim (Bool-cases (leb (n - 1) 0)) [
      | inl b ↦ rw b (lookup-erase ip j m ∙ ground (arith, each j, left, text_beq_iff ip j))
      | inr b ↦
          rw b (lookup-insert ip j (n - 1) m ∙ ground (arith, each j, left, text_beq_iff ip j))
    ])

module _ (max_global max_per_ip : ℤ) where
  reserve_for_ip-IsCounted :
      (ip : Text) (c : Connections) (per : ℕ)
      → per ≡ times ip c.open_ips
      → (ltb_ℤ (pos 0) max_global && leb (pos_part max_global) c.slots.current) ≡ false
      → suc (length c.open_ips) < u64_mod
      → IsCounted max_global max_per_ip c
      → IsCounted max_global max_per_ip (opened ip c (reserve_for_ip max_per_ip ip per c.slots))
  unfolding reserve_for_ip take_slot
  reserve_for_ip-IsCounted ip c per e below small v =
      elim (Bool-cases (ltb_ℤ (pos 0) max_per_ip && leb (pos_part max_per_ip) per)) [
        | inl b ↦ rw b (record {
          each = λ j. lookup-refused ip j per c.slots.per_ip c.open_ips e v.each;
          all = v.all;
          global_cap = v.global_cap;
          ip_cap = v.ip_cap;
        })
        | inr b ↦ rw b (record {
          each = λ j. lookup-take_slot ip j per c.slots.per_ip c.open_ips e v.each;
          all = omega (arith, v.all);
          global_cap = λ h. ground (arith, v.all);
          ip_cap = λ h j. ground (arith, v.ip_cap h j, text_beq_iff j ip);
        })
      ]

  reserve-IsCounted :
      (ip : Text) (c : Connections)
      → suc (length c.open_ips) < u64_mod
      → IsCounted max_global max_per_ip c
      → IsCounted max_global max_per_ip (step max_global max_per_ip (connects ip) c)
  unfolding step try_reserve_conn_slot
  reserve-IsCounted ip c small v =
      elim (Bool-cases (ltb_ℤ (pos 0) max_global && leb (pos_part max_global) c.slots.current)) [
        | inl b ↦ rw b v
        | inr b ↦ rw b (
            reserve_for_ip-IsCounted ip c (count_or_zero (lookup ip c.slots.per_ip))
              (ap count_or_zero (v.each ip) ∙ count_or_zero-counted (times ip c.open_ips)) b small
              v)
      ]

  release-IsCounted :
      (ip : Text) (c : Connections)
      → times [] c.open_ips ≡ 0
      → length c.open_ips < u64_mod
      → IsCounted max_global max_per_ip c
      → IsCounted max_global max_per_ip (step max_global max_per_ip (goes ip) c)
  unfolding step release_conn_slot
  release-IsCounted ip c named small v = elim (Bool-cases (times ip c.open_ips == 0)) [
    | inl b ↦ rw b v
    | inr b ↦
        rw (b, length-open ip c.open_ips named b)
          (let shorter = length-without_one ip c.open_ips b in
            record {
              each = λ j. lookup-released ip j c.slots.per_ip c.open_ips b v.each;
              all = omega (arith, v.all, shorter);
              global_cap = λ h. omega (arith, v.global_cap h, shorter);
              ip_cap = λ h j. omega (arith, v.ip_cap h j, times-without_one ip j c.open_ips);
            })
  ]

  length-step-le :
      (e : ConnEvent) (c : Connections)
      → length (step max_global max_per_ip e c).open_ips ≤ suc (length c.open_ips)
  unfolding step
  length-step-le (connects ip) c =
      length-opened-le ip c (try_reserve_conn_slot max_global max_per_ip ip c.slots)
  length-step-le (goes ip) c = elim (Bool-cases (times ip c.open_ips == 0)) [
    | inl b ↦ rw b (omega arith)
    | inr b ↦ rw b (omega (arith, length-without_one ip c.open_ips b))
  ]

  step-named :
      (e : ConnEvent) (c : Connections)
      → IsNamed e
      → times [] c.open_ips ≡ 0
      → times [] (step max_global max_per_ip e c).open_ips ≡ 0
  unfolding step
  step-named (connects ip) c n h =
      opened-named ip c (try_reserve_conn_slot max_global max_per_ip ip c.slots) n h
  step-named (goes ip) c n h = elim (Bool-cases (times ip c.open_ips == 0)) [
    | inl b ↦ rw b h
    | inr b ↦ rw b (omega (arith, times-without_one ip [] c.open_ips))
  ]

  history-IsCounted :
      (es : List ConnEvent) (c : Connections)
      → IsCounted max_global max_per_ip c
      → times [] c.open_ips ≡ 0
      → All IsNamed es
      → length c.open_ips + length es < i32_max
      → IsCounted max_global max_per_ip (history max_global max_per_ip es c)
  unfolding history
  history-IsCounted [] c v named all_named small = v
  history-IsCounted (connects ip ∷ es) c v named all_named small =
      history-IsCounted es (step max_global max_per_ip (connects ip) c)
        (reserve-IsCounted ip c (omega arith) v) (step-named (connects ip) c all_named.0 named)
        all_named.1 (omega (arith, length-step-le (connects ip) c))
  history-IsCounted (goes ip ∷ es) c v named all_named small =
      history-IsCounted es (step max_global max_per_ip (goes ip) c)
        (release-IsCounted ip c named (omega arith) v) (step-named (goes ip) c tt named) all_named.1
        (omega (arith, length-step-le (goes ip) c))

  -- From no connection on, after any sequence of connections and disconnections (fewer than 2^31, so that
  -- no count of an address reaches the end of an int) in which every socket has an address, the
  -- gauge is the number of open connections, the map has for each address the number of its open
  -- connections and no entry where there is none, and neither cap is ever exceeded, where it is set.
  pub connections-IsCounted :
      (es : List ConnEvent)
      → All IsNamed es
      → length es < i32_max
      → IsCounted max_global max_per_ip (history max_global max_per_ip es no_connections)
  unfolding lookup
  connections-IsCounted es named small =
      history-IsCounted es no_connections
        (record {
          each = λ ip. refl;
          all = refl;
          global_cap = λ h. omega arith;
          ip_cap = λ h ip. omega arith;
        })
        refl named (omega arith)

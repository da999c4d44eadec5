-- ===== src/Pair/Network.antt =====
-- What the scanning device is shown: pollPairSession, and its test whether two addresses are of one
-- network.
use minister.Common.{
  ℕ, String, ◌≡◌, refl, Bool, true, false, not, ◌&&◌, ◌||◌, Option, none, some, List, [], ◌∷◌,
  arith, ◌≢◌, nat_beq, ◌==◌, if◌then◌else◌, string_eq, eq_iff, length, take, split, lookup,
}
use minister.Pair.{Row, Shown, shown_not_found, Relay, effective_state}

-- Equality of lists of strings, position by position.
unfoldable pub same_parts : List String → List String → Bool
same_parts [] [] = true
same_parts [] (y ∷ ys) = false
same_parts (x ∷ xs) [] = false
same_parts (x ∷ xs) (y ∷ ys) = x == y && same_parts xs ys

abbrev colon : ℕ
colon = 58

abbrev dot : ℕ
dot = 46

-- `s.includes(":")`: the split has more than one part.
abbrev has_colon : String → Bool
has_colon s = not (nat_beq (length (split colon s)) 1)

-- Two known addresses. The parts of a prefix hold no colon, so that the joined prefixes are equal
-- when the parts are.
unfoldable pub same_address : String → String → Bool
same_address a b =
    if a == b
    then true
    else if nat_beq (length (split dot a)) 4 && nat_beq (length (split dot b)) 4
    then same_parts (take 3 (split dot a)) (take 3 (split dot b))
    else if has_colon a && has_colon b
    then same_parts (take 3 (split colon a)) (take 3 (split colon b))
    else false

-- `!a || a === "unknown"`
abbrev is_unknown : String → Bool
is_unknown a = a == "" || a == "unknown"

unfoldable pub same_network : Option String → Option String → Bool
same_network none b = false
same_network (some a) none = false
same_network (some a) (some b) = if is_unknown a || is_unknown b then false else same_address a b

same_parts-sym : (xs ys : List String) → same_parts xs ys ≡ same_parts ys xs
unfolding same_parts
same_parts-sym [] [] = refl
same_parts-sym [] (y ∷ ys) = refl
same_parts-sym (x ∷ xs) [] = refl
same_parts-sym (x ∷ xs) (y ∷ ys) = ground (arith, eq_iff x y, eq_iff y x, same_parts-sym xs ys)

same_parts_refl : (xs : List String) → same_parts xs xs ≡ true
unfolding same_parts
same_parts_refl [] = refl
same_parts_refl (x ∷ xs) = ground (arith, eq_iff x x, same_parts_refl xs)

same_address-sym : (a b : String) → same_address a b ≡ same_address b a
unfolding same_address
same_address-sym a b = ground (
  arith,
  eq_iff a b,
  eq_iff b a,
  same_parts-sym (take 3 (split dot a)) (take 3 (split dot b)),
  same_parts-sym (take 3 (split colon a)) (take 3 (split colon b)),
)

known-same_network :
    (a s : String)
    → some a ≡ some s
    → s ≢ ""
    → s ≢ "unknown"
    → same_network (some a) (some a) ≡ true
unfolding same_network same_address
known-same_network a s e h k =
    ground (arith, eq_iff a a, eq_iff a "", eq_iff a "unknown", eq_iff s "", eq_iff s "unknown")

-- Whether two addresses are of one network does not depend on their order; an address that is
-- missing, empty or "unknown" is of no network, with itself neither; and every other address is of the
-- network of itself.
same_network-laws :
    (a b : Option String)
    → (same_network a b ≡ same_network b a)
      × (same_network a none ≡ false)
      × (same_network a (some "") ≡ false)
      × (same_network a (some "unknown") ≡ false)
      × ((s : String) → a ≡ some s → s ≢ "" → s ≢ "unknown" → same_network a a ≡ true)
unfolding same_network
same_network-laws none none = (refl, refl, refl, refl, λ s e n m. cc)
same_network-laws none (some b) = (refl, refl, refl, refl, λ s e n m. cc)
same_network-laws (some a) none = (refl, refl, ground arith, ground arith, known-same_network a)
same_network-laws (some a) (some b) =
    (ground (arith, same_address-sym a b), refl, ground arith, ground arith, known-same_network a)

pub record PeerFacts : Type 0 where
  pub country : Option String
  pub city : Option String
  pub same_network_as_you : Bool
  pub same_country_as_you : Bool

pub record PollResult : Type 0 where
  pub state : Shown
  pub expires_at : Option ℕ
  pub peer : Option PeerFacts

-- Both are known and equal.
unfoldable pub same_country : Option String → Option String → Bool
same_country none b = false
same_country (some a) none = false
same_country (some a) (some b) = a == b

unfoldable pub poll_row : ℕ → Option String → Option String → Option Row → PollResult
poll_row now requester_ip requester_country none = record {
  state = shown_not_found;
  expires_at = none;
  peer = none;
}
poll_row now requester_ip requester_country (some row) = record {
  state = effective_state row now;
  expires_at = some row.expires_at;
  peer = some (record {
    country = row.creator_country;
    city = row.creator_city;
    same_network_as_you = same_network row.creator_ip requester_ip;
    same_country_as_you = same_country row.creator_country requester_country;
  });
}

unfoldable pub poll_pair_session : ℕ → String → Option String → Option String → Relay → PollResult
poll_pair_session now session_id requester_ip requester_country relay =
    poll_row now requester_ip requester_country (lookup relay.rows session_id)

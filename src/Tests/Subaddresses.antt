-- ===== src/Tests/Subaddresses.antt =====
-- library/src/caching/subaddress_cache.rs with two free subaddresses.
use xmrgateway.Prelude.{◌≡◌, refl, String, none, some, [], ◌∷◌, arith}
use xmrgateway.Std.HashMap.{lookup}
use xmrgateway.Invoice.{SubIndex}
use xmrgateway.Invoice.Order.{sub_index_eq}
use xmrgateway.Caching.SubaddressCache.{SubaddressCache, shift_remove_index, refill, remove_random}
use xmrgateway.Caching.SubaddressCache.Reuse.{IsSound, remove_random_lem}

abbrev one : SubIndex
one = record { major = 0; minor = 1 }

abbrev two : SubIndex
two = record { major = 0; minor = 2 }

abbrev address_of : SubIndex → String
address_of i = "8A"

abbrev free : SubaddressCache
free = record {
  major_index = 0;
  highest_minor_index = 2;
  available_subaddresses = (one, "81") ∷ (two, "82") ∷ [];
}

abbrev left : SubaddressCache
left = record free { available_subaddresses = (one, "81") ∷ [] }

free-IsSound : IsSound free
unfolding lookup
free-IsSound = record { once = (refl, (refl, tt)); known = (omega arith, (omega arith, tt)) }

remove_random-run : remove_random address_of 1 free ≡ some ((two, "82"), refill address_of left)
unfolding remove_random shift_remove_index
remove_random-run = refl

remove_random_lem_example :
    (lookup two (refill address_of left).available_subaddresses ≡ none)
    × IsSound (refill address_of left)
remove_random_lem_example =
    remove_random_lem address_of 1 free two "82" free-IsSound remove_random-run

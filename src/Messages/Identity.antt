-- ===== src/Messages/Identity.antt =====
-- No two messages of the timeline are the same by id or by client id, and what arrives last is
-- shown as it arrived.
use bighead.Common.{String, false, ◌≡◌, Option, List, [], ◌∷◌, All}
use bighead.Messages.{RealtimeMessage, same_client, is_duplicate}

abbrev Apart : RealtimeMessage → RealtimeMessage → Type 0
Apart m n = is_duplicate m n ≡ false

-- Any two messages of the list, at different places, differ in their ids, and in their client ids
-- where both have one.
abbrev pub IsDistinct : List RealtimeMessage → Type 0
IsDistinct [] = Unit
IsDistinct (m ∷ ms) = All (λ n. is_duplicate m n ≡ false) ms × IsDistinct ms

-- A client id that none of the messages has.
abbrev Foreign : Option String → List RealtimeMessage → Type 0
Foreign client ms = All (λ n. same_client client n.client_id ≡ false) ms

-- ===== src/Examples/Texts.antt =====
-- The trimming of texts, for the examples: spaces at both ends.
use fabric_data_framework.Prelude.{[], ◌∷◌, ◌++◌, if◌then◌else◌, ◌==◌, nat_eq, Text}

abbrev drop_spaces : Text → Text
drop_spaces [] = []
drop_spaces (c ∷ s) = let rest = drop_spaces s in if c == 32 then rest else c ∷ s

abbrev backwards : Text → Text
backwards [] = []
backwards (c ∷ s) = backwards s ++ c ∷ []

abbrev pub strip_spaces : Text → Text
strip_spaces s = backwards (drop_spaces (backwards (drop_spaces s)))

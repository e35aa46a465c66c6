-- ===== src/Template/Examples.antt =====
-- Templates of the tests of swale/src/template.rs.
use swale.Base.{◌≡◌, refl, [], ◌∷◌, Text, codes, arith, text_eq, strip_prefix}
use swale.Template.{ok, Segment, parse, parse_from, split_pair, reference, trim, split}
use swale.Template.Parse.{parse_fuel}

abbrev source : Text
source = codes "a/{{ partition }}{{ upstream.extract.rows }}"

parsed :
    parse source
    ≡ ok (
        Segment.literal (codes "a/")
        ∷ (Segment.partition ∷ (Segment.upstream (codes "extract") (codes "rows" ∷ []) ∷ [])))
unfolding parse parse_from split_pair reference text_eq trim strip_prefix split
parsed = refl

parse_fuel_example : parse_from 60 source 0 ≡ parse source
parse_fuel_example = parse_fuel source 60 (omega arith)

-- ===== src/Delivery/AttachmentExamples.antt =====
-- A run of the resolution of attachments, and its theorem on it.
use velpos.Prelude.{◌≡◌, refl, false, none, some, [], ◌∷◌, ◌++◌}
use velpos.Prelude.Result.{ok}
use velpos.Prelude.Dict.{Dict, insert}
use velpos.Values.{Value, str, Runtime}
use velpos.Delivery.Attachments.{
  Paths, is_within, resolve_one, resolve_each, resolve_outbound_attachments,
}
use velpos.Delivery.Attachments.Confined.{EachConfined, attachments-IsConfined}

-- A runtime in which every path reads as `a.txt`.
abbrev plain : Runtime
plain = record {
  str_of = λ v. "a.txt";
  float_truthy = λ t. false;
  dumps = λ v. "";
  loads = λ s. none;
}

abbrev posix : Paths
posix = record {
  is_absolute = λ s. false;
  root_of = λ s. "home" ∷ "p" ∷ [];
  join = λ root s. root ++ s ∷ [];
  text_of = λ path. "/home/p/a.txt";
}

abbrev file : Dict Value
file = ("path", str "a.txt") ∷ []

abbrev placed : Dict Value
placed = ("path", str "/home/p/a.txt") ∷ []

resolved : resolve_outbound_attachments plain posix (some "p") (file ∷ []) ≡ ok (placed ∷ [])
unfolding resolve_outbound_attachments resolve_each resolve_one is_within insert
resolved = refl

attachments-IsConfined_example :
    EachConfined plain posix (some ("home" ∷ "p" ∷ [])) (file ∷ []) (placed ∷ [])
attachments-IsConfined_example = attachments-IsConfined plain posix (some "p") (file ∷ []) resolved

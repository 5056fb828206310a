-- ===== src/Package/RoundTrip.antt =====
-- compiler/lib/Package/Package.cpp: what is read of a text that was written.
use supreme_doodle.Common.{◌≡◌, refl, ap, some, List, [], ◌∷◌, String}
use supreme_doodle.Package.{
  Json, member, no_members, object, array, string, Codec, PackageInfo, quiet, strings, serialize,
  read_text, read_items, read_dependencies, read_root, deserialize,
}

-- a package as the object that `deserialize` looks for
abbrev pub manifest : PackageInfo → Json
manifest p = object (
    member "name" (string p.name) (
      member "version" (string p.version) (
        member "description" (string p.description) (
          member "src" (string p.rel_src_path)
            (member "dependencies" (array (strings p.dependencies)) no_members)))))

read_items-strings : (ks : List String) → read_items (strings ks) ≡ ks
read_items-strings [] = refl
read_items-strings (k ∷ ks) = ap (λ ls. k ∷ ls) (read_items-strings ks)

module _ {Text : Type 0} (codec : Codec Text)
    (parse-print : (v : Json) → codec.parse (codec.print v) ≡ some v) where
  -- Where parsing undoes printing, reading the text of an object with the keys name, version, description, src and
  -- dependencies, in any package, gives exactly the package of their values, with no complaint.
  pub deserialize-manifest :
      (p q : PackageInfo) → deserialize codec (codec.print (manifest p)) q ≡ (quiet, p)
  unfolding deserialize read_root read_text read_dependencies
  deserialize-manifest p q = rw (parse-print (manifest p), read_items-strings p.dependencies) refl

  -- Where parsing undoes printing, reading what serialize wrote of a package changes nothing in the package
  -- that reads it, whatever the two packages are: none of the keys that are written is a key that is read.
  pub deserialize-serialize :
      (p q : PackageInfo) → deserialize codec (serialize codec p) q ≡ (quiet, q)
  unfolding deserialize serialize read_root read_text read_dependencies
  deserialize-serialize p q = rw (parse-print _) refl

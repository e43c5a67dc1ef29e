-- ===== src/Cache/Middleware/Rules.antt =====
-- Which tags the default rule takes as unsafe.
use toolops.Base.{All-Memᴰ, ◌≡◌, true, List, map, any-Memᴰ, Memᴰ-any, Memᴰ, ◌↔◌, All}
use toolops.Base.Text.{Text, member, member-Memᴰ, Memᴰ-member}
use toolops.Base.Unicode.{Unicode, to_lower, is_ascii, lower_byte}
use toolops.Cache.Middleware.{default_skip_rule, unsafe_tags}

-- A tag that is an unsafe one but for the case of its letters.
pub record IsUnsafe (tags : List Text) : Type 0 where
  pub tag : Text
  pub listed : Memᴰ tag tags
  pub unsafe : Memᴰ (map lower_byte tag) unsafe_tags

abbrev IsAscii : Text → Type 0
IsAscii tag = is_ascii tag ≡ true

-- On tags in ASCII the default rule skips the cache exactly when some tag is, whatever the case of its
-- letters, one of the unsafe tags.
pub default_skip_rule_iff :
    (u : Unicode) (tool_id : Text) (tags : List Text)
    → All IsAscii tags
    → (default_skip_rule u tool_id tags ≡ true) ↔ IsUnsafe tags
unfolding default_skip_rule to_lower
default_skip_rule_iff u tool_id tags ascii = (
  λ skips.
      let (tag, m, h) = any-Memᴰ (λ t. member (to_lower u t) unsafe_tags) tags skips in
      record {
        tag = tag;
        listed = m;
        unsafe = member-Memᴰ _ _ (rw (All-Memᴰ IsAscii m ascii) at h);
      },
  λ r.
      Memᴰ-any (λ t. member (to_lower u t) unsafe_tags) r.listed
        (rw (All-Memᴰ IsAscii r.listed ascii) (Memᴰ-member _ r.unsafe)),
)

-- ===== src/Domain/Value.antt =====
-- The values that Go keeps in a `map[string]any` after decoding JSON, and those that the services
-- put there themselves (texts, `int` and `int64`). A float64 is its bit pattern.
use enterprise_workflow_plat.Common.{ℕ, String, Bool, Option, none, some, ◌==◌, if◌then◌else◌}

mutual
  pub data Value : Type 0 where
    null : Value
    boolean : Bool → Value
    int : ℕ → Value
    float64 : ℕ → Value
    text : String → Value
    array : Items → Value
    object : Members → Value

  pub data Items : Type 0 where
    nil : Items
    cons : Value → Items → Items

  pub data Members : Type 0 where
    end : Members
    member : String → Value → Members → Members

-- `m[k]` with the test whether it is there.
unfoldable pub member? : String → Members → Option Value
member? k end = none
member? k (member j v m) = if j == k then some v else member? k m

-- `m[k] = v`.
unfoldable pub set_member : String → Value → Members → Members
set_member k v end = member k v end
set_member k v (member j w m) = if j == k then member k v m else member j w (set_member k v m)

-- The assertion `v.(string)` on a looked-up value: the empty text where it fails.
unfoldable pub as_text : Option Value → String
as_text (some (text s)) = s
as_text _ = ""

-- `m[k]` of a map that may be nil.
unfoldable pub payload_text : String → Option Members → String
unfolding member? as_text
payload_text k none = ""
payload_text k (some m) = as_text (member? k m)

-- ===== src/Includes/Order.antt =====
-- CheckNextIncludeOrder: the section and the last header.
use myframe.Common.{◌≤◌, ◌≡◌, ◌≢◌, ◌↔◌, ◌⊎◌, sym, ◌∙◌, none, [], arith}
use myframe.Includes.{
  HeaderType, c_sys_header, IncludeState, next_section, order_message, check_next_include_order,
}

-- The message is empty exactly when the header is in the right order.
pub message_iff :
    (h : HeaderType) (s : IncludeState)
    → ((check_next_include_order h s).1 ≡ []) ↔ (next_section h s.section ≢ none)
unfolding check_next_include_order next_section order_message
message_iff h s = ground arith

-- The sections are the numbers up to 5, and there is always a current list of headers.
pub record IsValid (s : IncludeState) : Type 0 where
  pub section_le : s.section ≤ 5
  pub listed : s.include_list ≢ []

-- On a valid state a call never moves the section back, nor past the last one; a message leaves
-- the section as it was, the list of headers always stays; what moves the section, or draws a
-- message, clears the last header, and nothing else does.
pub check_next_include_order_lem :
    (h : HeaderType) (s : IncludeState)
    → IsValid s
    → let (s', message) = check_next_include_order h s in
      (s.section ≤ s'.section)
      × (s'.section ≤ 5)
      × (s'.include_list ≡ s.include_list)
      × (message ≢ [] → s'.section ≡ s.section)
      × ((message ≢ []) ⊎ (s'.section ≢ s.section) → s'.last_header ≡ [])
      × (message ≡ [] → s'.section ≡ s.section → s'.last_header ≡ s.last_header)
unfolding check_next_include_order next_section order_message
check_next_include_order_lem c_sys_header s v = ground arith
check_next_include_order_lem _ s v = ground arith

pub check_next_include_order-IsValid :
    (h : HeaderType) (s : IncludeState) → IsValid s → IsValid (check_next_include_order h s).0
unfolding check_next_include_order next_section
check_next_include_order-IsValid h s v = record {
  section_le = (check_next_include_order_lem h s v).1;
  listed = λ e. v.listed (sym (check_next_include_order_lem h s v).2 ∙ e);
}

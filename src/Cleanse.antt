-- ===== src/Cleanse.antt =====
-- How cpplint.py cleanses the lines of a file before it checks them: raw strings, comments over
-- several lines, and the comments and strings of one line.
pub mod Raw
pub mod Comments
pub mod Lines

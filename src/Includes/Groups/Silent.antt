-- ===== src/Includes/Groups/Silent.antt =====
-- Files whose headers stand in groups, and the messages of CheckNextIncludeOrder.

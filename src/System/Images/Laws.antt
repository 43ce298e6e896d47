-- ===== src/System/Images/Laws.antt =====
-- What an image reference is split into.

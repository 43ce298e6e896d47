-- ===== src/System/Images/Tests.antt =====
-- An image from a registry with a port.

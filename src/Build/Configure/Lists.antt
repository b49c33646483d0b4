-- ===== src/Build/Configure/Lists.antt =====
-- TUNED_EXTRA_MODULES, BUILD_DEPS and MOK_TRUST_SYMBOLS of src/build.rs.
use kernel_pop.Prelude.{List, [], ◌∷◌}
use kernel_pop.Text.{Text, codes}

abbrev pub tuned_extra_modules : List Text
tuned_extra_modules =
    codes "usb_storage"
    ∷ codes "uas"
    ∷ codes "sd_mod"
    ∷ codes "sr_mod"
    ∷ codes "cdrom"
    ∷ codes "mmc_block"
    ∷ codes "sdhci"
    ∷ codes "sdhci_pci"
    ∷ codes "sdhci_acpi"
    ∷ codes "rtsx_pci"
    ∷ codes "rtsx_pci_sdmmc"
    ∷ codes "rtsx_usb"
    ∷ codes "rtsx_usb_sdmmc"
    ∷ codes "nvme"
    ∷ codes "vfat"
    ∷ codes "fat"
    ∷ codes "msdos"
    ∷ codes "exfat"
    ∷ codes "ntfs3"
    ∷ codes "isofs"
    ∷ codes "udf"
    ∷ codes "ext4"
    ∷ codes "btrfs"
    ∷ codes "xfs"
    ∷ codes "f2fs"
    ∷ codes "hfsplus"
    ∷ codes "fuse"
    ∷ codes "squashfs"
    ∷ codes "overlay"
    ∷ codes "nls_utf8"
    ∷ codes "nls_cp437"
    ∷ codes "nls_iso8859_1"
    ∷ codes "nls_ascii"
    ∷ codes "cifs"
    ∷ codes "nfs"
    ∷ codes "nfsv4"
    ∷ codes "usbhid"
    ∷ codes "hid_generic"
    ∷ codes "hid_multitouch"
    ∷ codes "hid_logitech_dj"
    ∷ codes "hid_logitech_hidpp"
    ∷ codes "hid_sony"
    ∷ codes "hid_playstation"
    ∷ codes "hid_nintendo"
    ∷ codes "hid_microsoft"
    ∷ codes "hid_apple"
    ∷ codes "hid_steam"
    ∷ codes "xpad"
    ∷ codes "joydev"
    ∷ codes "uinput"
    ∷ codes "i2c_hid_acpi"
    ∷ codes "snd_usb_audio"
    ∷ codes "uvcvideo"
    ∷ codes "bluetooth"
    ∷ codes "btusb"
    ∷ codes "btintel"
    ∷ codes "btrtl"
    ∷ codes "btbcm"
    ∷ codes "btmtk"
    ∷ codes "usbnet"
    ∷ codes "cdc_ether"
    ∷ codes "cdc_ncm"
    ∷ codes "cdc_mbim"
    ∷ codes "rndis_host"
    ∷ codes "r8152"
    ∷ codes "ax88179_178a"
    ∷ codes "asix"
    ∷ codes "ipheth"
    ∷ codes "thunderbolt"
    ∷ codes "typec_displayport"
    ∷ codes "ucsi_acpi"
    ∷ codes "typec_ucsi"
    ∷ codes "usblp"
    ∷ codes "cdc_acm"
    ∷ codes "usbserial"
    ∷ codes "ftdi_sio"
    ∷ codes "cp210x"
    ∷ codes "ch341"
    ∷ codes "pl2303"
    ∷ codes "tun"
    ∷ codes "tap"
    ∷ codes "wireguard"
    ∷ codes "veth"
    ∷ codes "bridge"
    ∷ codes "br_netfilter"
    ∷ codes "vxlan"
    ∷ codes "macvlan"
    ∷ codes "ipvlan"
    ∷ codes "nf_tables"
    ∷ codes "nft_compat"
    ∷ codes "nft_chain_nat"
    ∷ codes "nf_nat"
    ∷ codes "nf_conntrack"
    ∷ codes "xt_MASQUERADE"
    ∷ codes "xt_conntrack"
    ∷ codes "xt_addrtype"
    ∷ codes "iptable_nat"
    ∷ codes "iptable_filter"
    ∷ codes "ip6table_nat"
    ∷ codes "ip6table_filter"
    ∷ codes "kvm"
    ∷ codes "kvm_intel"
    ∷ codes "kvm_amd"
    ∷ codes "vhost_net"
    ∷ codes "vhost_vsock"
    ∷ codes "dm_crypt"
    ∷ codes "dm_mod"
    ∷ codes "loop"
    ∷ codes "zram"
    ∷ codes "ntsync"
    ∷ []

abbrev pub build_deps : List Text
build_deps =
    codes "build-essential"
    ∷ codes "dpkg-dev"
    ∷ codes "bc"
    ∷ codes "bison"
    ∷ codes "flex"
    ∷ codes "debhelper"
    ∷ codes "kmod"
    ∷ codes "libdw-dev"
    ∷ codes "libelf-dev"
    ∷ codes "libssl-dev"
    ∷ codes "python3"
    ∷ codes "rsync"
    ∷ codes "xz-utils"
    ∷ codes "pahole"
    ∷ codes "zstd"
    ∷ codes "cpio"
    ∷ codes "openssl"
    ∷ codes "gawk"
    ∷ codes "ccache"
    ∷ codes "gnupg"
    ∷ []

abbrev pub mok_trust_symbols : List Text
mok_trust_symbols =
    codes "MODULE_SIG"
    ∷ codes "SYSTEM_TRUSTED_KEYRING"
    ∷ codes "SECONDARY_TRUSTED_KEYRING"
    ∷ codes "INTEGRITY_PLATFORM_KEYRING"
    ∷ codes "LOAD_UEFI_KEYS"
    ∷ codes "INTEGRITY_MACHINE_KEYRING"
    ∷ []
